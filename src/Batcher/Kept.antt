-- ===== src/Batcher/Kept.antt =====
-- Where a submitted URL is: in the buffer, or handed to the queue.
use mirror_mirage.Prelude.{
  ◌≡◌, refl, ap, subst, Option, none, some, List, [], ◌∷◌, ◌++◌, ◌⊎◌, inl, inr, In, In-append_left,
  In-append_right, any, leb, length, Bool-cases,
}
use mirror_mirage.Text.{Text, text_eq, any-In}
use mirror_mirage.Config.{Seconds, DaemonConfig}
use mirror_mirage.Mapper.{PurgeTarget}
use mirror_mirage.Batcher.{Urls, Batch, add, buffer_of}
use mirror_mirage.Batcher.Slot.{
  Slot, flush_slot, flush_buffer, ensure_slot, ensured, recorded, record_slot, submit_slot,
}
use mirror_mirage.Batcher.Steps.{
  View, urls_of, flushed_by, Step, move, submit, pass, flush_all, wake_up, look, flush_due, nudge,
  time_out, flush_expired, Reach, here, next,
}

pub In-add_self : (url : Text) (buf : Urls) → In url (add url buf)
unfolding add
In-add_self url buf = elim (Bool-cases (any (text_eq url) buf)) [
  | inl e ↦ rw e (any-In url buf e)
  | inr e ↦ rw e (In-append_right url buf (url ∷ []) (inl refl))
]

pub In-add_old : (u url : Text) (buf : Urls) → In u buf → In u (add url buf)
unfolding add
In-add_old u url buf m = elim (Bool-cases (any (text_eq url) buf)) [
  | inl e ↦ rw e m
  | inr e ↦ rw e (In-append_left u buf (url ∷ []) m)
]

-- A URL is kept if it is in the buffer or has been handed to the queue.
abbrev pub Kept : Text → View → Type 0
Kept u v = In u (buffer_of v.state.buffer) ⊎ In u v.sent

-- The same of an operation's result.
abbrev pub Held : Text → Slot × Option Batch → Type 0
Held u r = In u (buffer_of r.0.buffer) ⊎ In u (urls_of r.1)

flush-Held_at :
    (u cdn : Text) (o : Option Urls) (s : Slot)
    → s.buffer ≡ o
    → In u (buffer_of o)
    → Held u (flush_buffer cdn o s)
flush-Held_at u cdn none s e m = absurd m
flush-Held_at u cdn (some []) s e m = absurd m
flush-Held_at u cdn (some (x ∷ xs)) s e m = inr m

pub flush-Held : (u cdn : Text) (s : Slot) → In u (buffer_of s.buffer) → Held u (flush_slot cdn s)
unfolding flush_slot
flush-Held u cdn s m = flush-Held_at u cdn s.buffer s refl m

record-Held :
    (u : Text) (cfg : DaemonConfig) (now : Seconds) (target : PurgeTarget) (buf : Urls) (s : Slot)
    → In u (add target.url buf)
    → Held u (record_slot cfg now target buf s)
unfolding record_slot recorded
record-Held u cfg now target buf s m =
    elim (Bool-cases (leb cfg.batch_max_size (length (add target.url buf)))) [
      | inl e ↦ rw e (flush-Held u target.cdn_name (recorded now target.url buf s) m)
      | inr e ↦ rw e (inl m)
    ]

ensured-buffer :
    (o : Option Urls) (s : Slot) → s.buffer ≡ o → buffer_of (ensured o s).buffer ≡ buffer_of o
ensured-buffer none s e = refl
ensured-buffer (some buf) s e = ap buffer_of e

ensure_slot-buffer : (s : Slot) → buffer_of (ensure_slot s).buffer ≡ buffer_of s.buffer
unfolding ensure_slot
ensure_slot-buffer s = ensured-buffer s.buffer s refl

pub submit-Held_new :
    (cfg : DaemonConfig) (now : Seconds) (target : PurgeTarget) (s : Slot)
    → Held target.url (submit_slot cfg now target s)
unfolding submit_slot
submit-Held_new cfg now target s =
    record-Held target.url cfg now target (buffer_of (ensure_slot s).buffer) (ensure_slot s)
      (In-add_self target.url (buffer_of (ensure_slot s).buffer))

pub submit-Held_old :
    (u : Text) (cfg : DaemonConfig) (now : Seconds) (target : PurgeTarget) (s : Slot)
    → In u (buffer_of s.buffer)
    → Held u (submit_slot cfg now target s)
unfolding submit_slot
submit-Held_old u cfg now target s m =
    record-Held u cfg now target (buffer_of (ensure_slot s).buffer) (ensure_slot s)
      (In-add_old u target.url (buffer_of (ensure_slot s).buffer) (rw (ensure_slot-buffer s) m))

into_sent :
    (u : Text) (before : List Text) (r : Slot × Option Batch)
    → Held u r
    → In u (buffer_of r.0.buffer) ⊎ In u (before ++ urls_of r.1)
into_sent u before r (inl m) = inl m
into_sent u before r (inr m) = inr (In-append_right u before (urls_of r.1) m)

module _ (cfg : DaemonConfig) (cdn : Text) where
  flushed-Kept : (u : Text) (v : View) → Kept u v → Kept u (flushed_by cdn v.state.task v)
  flushed-Kept u v (inl m) =
      into_sent u v.sent (flush_slot cdn v.state) (flush-Held u cdn v.state m)
  flushed-Kept u v (inr m) = inr (In-append_left u v.sent (urls_of (flush_slot cdn v.state).1) m)

  Step-Kept : {v w : View} (u : Text) → Step cfg cdn v w → Kept u v → Kept u w
  Step-Kept {v = v} u (move (wake_up _ _)) k = k
  Step-Kept {v = v} u (move (look t _ _)) k = k
  Step-Kept {v = v} u (move (flush_due _)) k = flushed-Kept u v k
  Step-Kept {v = v} u (move (nudge _ _ _)) k = k
  Step-Kept {v = v} u (move (time_out _ _ _)) k = k
  Step-Kept {v = v} u (move (flush_expired _)) k = flushed-Kept u v k
  Step-Kept {v = v} u (submit target _) (inl m) =
      into_sent u v.sent (submit_slot cfg v.clock target v.state)
        (submit-Held_old u cfg v.clock target v.state m)
  Step-Kept {v = v} u (submit target _) (inr m) =
      inr (In-append_left u v.sent (urls_of (submit_slot cfg v.clock target v.state).1) m)
  Step-Kept u (pass n) k = k
  Step-Kept {v = v} u flush_all k = flushed-Kept u v k

  abbrev pub AllKept : View → Type 0
  AllKept v = (u : Text) → In u v.asked → Kept u v

  Step-AllKept : {v w : View} → Step cfg cdn v w → AllKept v → AllKept w
  Step-AllKept (move (wake_up a b)) k u m = k u m
  Step-AllKept (move (look t a b)) k u m = k u m
  Step-AllKept {v = v} (move (flush_due a)) k u m = Step-Kept {v = v} u (move (flush_due a)) (k u m)
  Step-AllKept (move (nudge d a b)) k u m = k u m
  Step-AllKept (move (time_out d a b)) k u m = k u m
  Step-AllKept {v = v} (move (flush_expired a)) k u m =
      Step-Kept {v = v} u (move (flush_expired a)) (k u m)
  Step-AllKept {v = v} (submit target e) k u (inl same) = rw same (
      into_sent target.url v.sent (submit_slot cfg v.clock target v.state)
        (submit-Held_new cfg v.clock target v.state))
  Step-AllKept {v = v} (submit target e) k u (inr m) = Step-Kept {v = v} u (submit target e) (k u m)
  Step-AllKept (pass n) k u m = k u m
  Step-AllKept {v = v} flush_all k u m = Step-Kept {v = v} u flush_all (k u m)

pub Reach-AllKept :
    (cfg : DaemonConfig) (cdn : Text) {v w : View}
    → AllKept cfg cdn v
    → Reach cfg cdn v w
    → AllKept cfg cdn w
Reach-AllKept cfg cdn k here = k
Reach-AllKept cfg cdn k (next r st) = Step-AllKept cfg cdn st (Reach-AllKept cfg cdn k r)

-- However submissions, timers, flushes and the debounce task interleave, and as long as the queue
-- accepts every batch: each URL that was submitted for the CDN since a state in which none had
-- been is in the CDN's buffer or has been handed to the queue.
pub Reach-Kept :
    (cfg : DaemonConfig) (cdn u : Text) {v w : View}
    → v.asked ≡ []
    → Reach cfg cdn v w
    → In u w.asked
    → Kept u w
Reach-Kept cfg cdn u {v = v} none_yet r m =
    Reach-AllKept cfg cdn {v = v} (λ x n. absurd (subst (In x) none_yet n)) r u m
