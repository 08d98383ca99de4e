-- ===== src/Batcher/Invariant.antt =====
-- The invariant of a CDN's buffer and task (timestamps, size, and a task that will look), under
-- `submit` and a flush.
use mirror_mirage.Prelude.{
  ℕ, ◌+◌, ◌≡◌, refl, ap, ◌≢◌, ◌≤◌, ◌<◌, true, Option, none, some, [], ◌∷◌, arith, inl, inr, min,
  leb, length, any, Bool-cases,
}
use mirror_mirage.Text.{Text, text_eq}
use mirror_mirage.Config.{Seconds, DaemonConfig}
use mirror_mirage.Mapper.{PurgeTarget}
use mirror_mirage.Batcher.{Task, waiting, checking, due, expired, sleeping, Urls, add, buffer_of}
use mirror_mirage.Batcher.Slot.{
  Slot, flush_slot, flush_buffer, flushed, ensure_slot, ensured, recorded, aged, record_slot,
  submit_slot,
}

-- A non-empty buffer has both timestamps, in order and not in the future; an empty one has none.
abbrev pub Timed : Seconds → Urls → Option Seconds → Option Seconds → Type 0
Timed now [] first last = (first ≡ none) × (last ≡ none)
Timed now (u ∷ us) first last =
    (f : Seconds) × (l : Seconds) × (first ≡ some f) × (last ≡ some l) × (f ≤ l) × (l ≤ now)

-- The task will look at a non-empty buffer: its event is set, or it stands inside its inner loop,
-- and then it sleeps no longer than until the buffer's own deadline.
pub data Served (cfg : DaemonConfig) (s : Slot) : Type 0 where
  signalled_waiting : s.wake ≡ some true → s.task ≡ some waiting → Served cfg s
  signalled_sleeping :
      (d : Seconds) → s.wake ≡ some true → s.task ≡ some (sleeping d) → Served cfg s
  looking : s.task ≡ some checking → Served cfg s
  flushing : s.task ≡ some due → Served cfg s
  overdue : s.task ≡ some expired → Served cfg s
  timed :
      (d f l : Seconds)
      → s.task ≡ some (sleeping d)
      → s.first ≡ some f
      → s.last ≡ some l
      → d ≡ min (l + cfg.batch_quiet_window_seconds) (f + cfg.batch_max_age_seconds)
      → Served cfg s

abbrev pub ServedIf : DaemonConfig → Slot → Urls → Type 0
ServedIf cfg s [] = Unit
ServedIf cfg s (_ ∷ _) = Served cfg s

-- A task exists once the buffer does, and no exception has ended it.
abbrev pub IsAlive : Option Urls → Option Task → Type 0
IsAlive none t = Unit
IsAlive (some buf) t = (x : Task) × (t ≡ some x) × (x ≢ Task.dead)

pub record Inv (cfg : DaemonConfig) (now : Seconds) (s : Slot) : Type 0 where
  pub stamps : Timed now (buffer_of s.buffer) s.first s.last
  pub served : ServedIf cfg s (buffer_of s.buffer)
  pub alive : IsAlive s.buffer s.task
  pub small : length (buffer_of s.buffer) < cfg.batch_max_size

-- A flush leaves an empty buffer.
flush-buffer_at :
    (cdn : Text) (o : Option Urls) (s : Slot)
    → s.buffer ≡ o
    → buffer_of (flush_buffer cdn o s).0.buffer ≡ []
flush-buffer_at cdn none s e = ap buffer_of e
flush-buffer_at cdn (some []) s e = ap buffer_of e
flush-buffer_at cdn (some (u ∷ us)) s e = refl

pub flush-buffer : (cdn : Text) (s : Slot) → buffer_of (flush_slot cdn s).0.buffer ≡ []
unfolding flush_slot
flush-buffer cdn s = flush-buffer_at cdn s.buffer s refl

-- An empty slot, whose task is alive, is in order.
Inv-empty :
    (cfg : DaemonConfig) (now : Seconds) (s : Slot)
    → 0 < cfg.batch_max_size
    → buffer_of s.buffer ≡ []
    → s.first ≡ none
    → s.last ≡ none
    → IsAlive s.buffer s.task
    → Inv cfg now s
Inv-empty cfg now s pos e f l a = record {
  stamps = rw e (f, l);
  served = rw e tt;
  alive = a;
  small = rw e pos;
}

flush-Inv_at :
    (cfg : DaemonConfig) (now : Seconds) (cdn : Text) (o : Option Urls) (s : Slot)
    → 0 < cfg.batch_max_size
    → s.buffer ≡ o
    → Timed now (buffer_of o) s.first s.last
    → IsAlive o s.task
    → Inv cfg now (flush_buffer cdn o s).0
flush-Inv_at cfg now cdn none s pos e t a =
    Inv-empty cfg now s pos (ap buffer_of e) t.0 t.1 (rw e a)
flush-Inv_at cfg now cdn (some []) s pos e t a =
    Inv-empty cfg now s pos (ap buffer_of e) t.0 t.1 (rw e a)
flush-Inv_at cfg now cdn (some (u ∷ us)) s pos e t a =
    Inv-empty cfg now (flushed s) pos refl refl refl a

pub flush-Inv :
    (cfg : DaemonConfig) (now : Seconds) (cdn : Text) (s : Slot)
    → 0 < cfg.batch_max_size
    → Timed now (buffer_of s.buffer) s.first s.last
    → IsAlive s.buffer s.task
    → Inv cfg now (flush_slot cdn s).0
unfolding flush_slot
flush-Inv cfg now cdn s pos t a = flush-Inv_at cfg now cdn s.buffer s pos refl t a

Timed-recorded :
    (now : Seconds) (url : Text) (buf : Urls) (first last : Option Seconds)
    → Timed now buf first last
    → Timed now (add url buf) (aged now buf first) (some now)
unfolding add
Timed-recorded now url [] first last t = (now, now, refl, refl, omega arith, omega arith)
Timed-recorded now url (u ∷ us) first last (f, l, ef, el, fl, ln) =
    elim (Bool-cases (any (text_eq url) (u ∷ us))) [
      | inl e ↦ rw e (f, now, ef, refl, omega arith, omega arith)
      | inr e ↦ rw e (f, now, ef, refl, omega arith, omega arith)
    ]

Served-alive :
    (cfg : DaemonConfig) (s : Slot) (x : Task)
    → s.wake ≡ some true
    → s.task ≡ some x
    → x ≢ Task.dead
    → Served cfg s
Served-alive cfg s waiting w t a = signalled_waiting w t
Served-alive cfg s checking w t a = looking t
Served-alive cfg s due w t a = flushing t
Served-alive cfg s expired w t a = overdue t
Served-alive cfg s (sleeping d) w t a = signalled_sleeping d w t
Served-alive cfg s Task.dead w t a = absurd (a refl)

pub ServedIf-Served :
    (cfg : DaemonConfig) (s : Slot) (buf : Urls) → Served cfg s → ServedIf cfg s buf
ServedIf-Served cfg s [] h = tt
ServedIf-Served cfg s (u ∷ us) h = h

pub record-Inv :
    (cfg : DaemonConfig) (now : Seconds) (target : PurgeTarget) (buf : Urls) (s : Slot) (x : Task)
    → 0 < cfg.batch_max_size
    → Timed now buf s.first s.last
    → s.task ≡ some x
    → x ≢ Task.dead
    → Inv cfg now (record_slot cfg now target buf s).0
unfolding record_slot
record-Inv cfg now target buf s x pos t e a =
    let r = recorded now target.url buf s in
    let stamped = Timed-recorded now target.url buf s.first s.last t in
    elim (Bool-cases (leb cfg.batch_max_size (length (add target.url buf)))) [
      | inl full ↦ rw full (
          flush-Inv cfg now target.cdn_name r pos (unfold recorded in stamped)
            (unfold recorded in (x, e, a)))
      | inr room ↦ rw room (record {
        stamps = unfold recorded in stamped;
        served =
            unfold recorded in
            ServedIf-Served cfg r (add target.url buf) (Served-alive cfg r x refl e a);
        alive = unfold recorded in (x, e, a);
        small = unfold recorded in ground arith;
      })
    ]

-- What `submit` finds once the CDN has its buffer, its event and its task.
ensured-alive :
    (o : Option Urls) (s : Slot)
    → s.buffer ≡ o
    → IsAlive o s.task
    → (x : Task) × ((ensured o s).task ≡ some x) × (x ≢ Task.dead)
ensured-alive none s e a = (waiting, refl, λ p. cc)
ensured-alive (some buf) s e a = a

ensured-Timed :
    (now : Seconds) (o : Option Urls) (s : Slot)
    → s.buffer ≡ o
    → Timed now (buffer_of o) s.first s.last
    → Timed now (buffer_of (ensured o s).buffer) (ensured o s).first (ensured o s).last
ensured-Timed now none s e t = t
ensured-Timed now (some buf) s e t = rw e t

pub submit-Inv :
    (cfg : DaemonConfig) (now : Seconds) (target : PurgeTarget) (s : Slot)
    → 0 < cfg.batch_max_size
    → Inv cfg now s
    → Inv cfg now (submit_slot cfg now target s).0
unfolding submit_slot ensure_slot
submit-Inv cfg now target s pos v =
    let (x, e, a) = ensured-alive s.buffer s refl v.alive in
    record-Inv cfg now target (buffer_of (ensure_slot s).buffer) (ensure_slot s) x pos
      (ensured-Timed now s.buffer s refl v.stamps) e a

pub Timed-later :
    (now n : ℕ) (buf : Urls) (first last : Option Seconds)
    → Timed now buf first last
    → Timed (now + n) buf first last
Timed-later now n [] first last t = t
Timed-later now n (u ∷ us) first last (f, l, ef, el, fl, ln) = (f, l, ef, el, fl, omega arith)
