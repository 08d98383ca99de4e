-- ===== src/Batcher/Slot.antt =====
-- What the batcher holds for one CDN, and its operations as functions of that alone.
use mirror_mirage.Prelude.{
  ◌≡◌, refl, subst, ◌∙◌, Bool, true, false, Option, none, some, [], ◌∷◌, leb, length, inl, inr,
  if◌then◌else◌, Bool-cases,
}
use mirror_mirage.Text.{Text, text_eq, text_eq_iff}
use mirror_mirage.FilePath.{text_keys}
use mirror_mirage.Dict
use mirror_mirage.Dict.{Dict, get-put_self, get-put_ne, get-pop_self, get-pop_ne, beq_refl}
use mirror_mirage.Config.{Seconds, DaemonConfig}
use mirror_mirage.Mapper.{PurgeTarget}
use mirror_mirage.Batcher.{
  Batcher, Task, waiting, Urls, Batch, add, clear, flush_locked, ensure, ensure_cdn, buffer_of,
  start_age,
}

pub record Slot : Type 0 where
  pub buffer : Option Urls
  pub first : Option Seconds
  pub last : Option Seconds
  pub wake : Option Bool
  pub task : Option Task

unfoldable pub slot : Text → Batcher → Slot
slot cdn b = record {
  buffer = Dict.get cdn b.buffers;
  first = Dict.get cdn b.first_added;
  last = Dict.get cdn b.last_added;
  wake = Dict.get cdn b.wake;
  task = Dict.get cdn b.tasks;
}

abbrev pub flushed : Slot → Slot
flushed s = record s { buffer = some []; first = none; last = none }

abbrev pub flush_buffer : Text → Option Urls → Slot → Slot × Option Batch
flush_buffer cdn none s = (s, none)
flush_buffer cdn (some []) s = (s, none)
flush_buffer cdn (some (u ∷ us)) s = (flushed s, some (cdn, u ∷ us))

unfoldable pub flush_slot : Text → Slot → Slot × Option Batch
flush_slot cdn s = flush_buffer cdn s.buffer s

abbrev pub ensured : Option Urls → Slot → Slot
ensured (some buf) s = s
ensured none s = record s { buffer = some []; wake = some false; task = some waiting }

unfoldable pub ensure_slot : Slot → Slot
ensure_slot s = ensured s.buffer s

abbrev pub aged : Seconds → Urls → Option Seconds → Option Seconds
aged now [] o = some now
aged now (_ ∷ _) o = o

-- The CDN's slot after a URL was added to its buffer `buf`.
unfoldable pub recorded : Seconds → Text → Urls → Slot → Slot
recorded now url buf s = record s {
  buffer = some (add url buf);
  first = aged now buf s.first;
  last = some now;
  wake = some true;
}

unfoldable pub record_slot :
    DaemonConfig → Seconds → PurgeTarget → Urls → Slot → Slot × Option Batch
record_slot cfg now target buf s =
    if leb cfg.batch_max_size (length (add target.url buf))
    then flush_slot target.cdn_name (recorded now target.url buf s)
    else (recorded now target.url buf s, none)

unfoldable pub submit_slot : DaemonConfig → Seconds → PurgeTarget → Slot → Slot × Option Batch
submit_slot cfg now target s =
    record_slot cfg now target (buffer_of (ensure_slot s).buffer) (ensure_slot s)

-- The other slots stay, the CDN's own slot becomes `s`.
abbrev pub Only : Text → Slot → Batcher → Batcher → Type 0
Only cdn s b b' = (j : Text) → slot j b' ≡ (if text_eq cdn j then s else slot j b)

Slot-eq :
    {s t : Slot}
    → s.buffer ≡ t.buffer
    → s.first ≡ t.first
    → s.last ≡ t.last
    → s.wake ≡ t.wake
    → s.task ≡ t.task
    → s ≡ t
Slot-eq a b c d e = λ i. record { buffer = a i; first = b i; last = c i; wake = d i; task = e i }

Only-intro :
    (cdn : Text) (s : Slot) (b b' : Batcher)
    → slot cdn b' ≡ s
    → ((j : Text) → text_eq cdn j ≡ false → slot j b' ≡ slot j b)
    → Only cdn s b b'
Only-intro cdn s b b' own others j = elim (Bool-cases (text_eq cdn j)) [
  | inl e ↦ rw e (subst (λ k. slot k b' ≡ s) ((text_eq_iff cdn j).0 e) own)
  | inr e ↦ rw e (others j e)
]

Only-same : (cdn : Text) (b : Batcher) → Only cdn (slot cdn b) b b
Only-same cdn b = Only-intro cdn (slot cdn b) b b refl (λ j e. refl)

flush-Only_at :
    (cdn : Text) (b : Batcher) (o : Option Urls)
    → Only cdn (flush_buffer cdn o (slot cdn b)).0 b (clear cdn o b).0
flush-Only_at cdn b none = Only-same cdn b
flush-Only_at cdn b (some []) = Only-same cdn b
flush-Only_at cdn b (some (u ∷ us)) =
    Only-intro cdn (flushed (slot cdn b)) b (clear cdn (some (u ∷ us)) b).0
      (unfold slot in
        Slot-eq (get-put_self cdn [] b.buffers) (get-pop_self cdn b.first_added)
          (get-pop_self cdn b.last_added) refl refl)
      (λ j e.
        unfold slot in
        Slot-eq (get-put_ne cdn j [] b.buffers e) (get-pop_ne cdn j b.first_added e)
          (get-pop_ne cdn j b.last_added e) refl refl)

flush_batch_at :
    (cdn : Text) (b : Batcher) (s : Slot) (o : Option Urls)
    → (clear cdn o b).1 ≡ (flush_buffer cdn o s).1
flush_batch_at cdn b s none = refl
flush_batch_at cdn b s (some []) = refl
flush_batch_at cdn b s (some (u ∷ us)) = refl

-- An operation on the batcher does to the CDN's slot what `f` does, gives the same batch, and
-- leaves all other slots.
pub record Refines (cdn : Text) (b : Batcher) (f : Slot × Option Batch) (r : Batcher × Option Batch)
    : Type 0 where
  pub slots : Only cdn f.0 b r.0
  pub batch : r.1 ≡ f.1

pub flush_locked-Refines :
    (cdn : Text) (b : Batcher) → Refines cdn b (flush_slot cdn (slot cdn b)) (flush_locked cdn b)
unfolding flush_slot flush_locked slot
flush_locked-Refines cdn b = record {
  slots = flush-Only_at cdn b (Dict.get cdn b.buffers);
  batch = flush_batch_at cdn b (slot cdn b) (Dict.get cdn b.buffers);
}

ensure-Only_at :
    (cdn : Text) (b : Batcher) (o : Option Urls)
    → Only cdn (ensured o (slot cdn b)) b (ensure cdn o b)
ensure-Only_at cdn b (some buf) = Only-same cdn b
ensure-Only_at cdn b none =
    Only-intro cdn (ensured none (slot cdn b)) b (ensure cdn none b)
      (unfold slot in
        Slot-eq (get-put_self cdn [] b.buffers) refl refl (get-put_self cdn false b.wake)
          (get-put_self cdn waiting b.tasks))
      (λ j e.
        unfold slot in
        Slot-eq (get-put_ne cdn j [] b.buffers e) refl refl (get-put_ne cdn j false b.wake e)
          (get-put_ne cdn j waiting b.tasks e))

pub ensure-Only :
    (cdn : Text) (b : Batcher) → Only cdn (ensure_slot (slot cdn b)) b (ensure_cdn cdn b)
unfolding ensure_slot ensure_cdn slot
ensure-Only cdn b = ensure-Only_at cdn b (Dict.get cdn b.buffers)

start_age-aged :
    (cdn : Text) (now : Seconds) (buf : Urls) (d : Dict Text Seconds)
    → Dict.get cdn (start_age cdn now buf d) ≡ aged now buf (Dict.get cdn d)
start_age-aged cdn now [] d = get-put_self cdn now d
start_age-aged cdn now (u ∷ us) d = refl

start_age_ne :
    (cdn j : Text) (now : Seconds) (buf : Urls) (d : Dict Text Seconds)
    → text_eq cdn j ≡ false
    → Dict.get j (start_age cdn now buf d) ≡ Dict.get j d
start_age_ne cdn j now [] d e = get-put_ne cdn j now d e
start_age_ne cdn j now (u ∷ us) d e = refl

abbrev pub with_url : Seconds → PurgeTarget → Urls → Batcher → Batcher
with_url now target buf b = record b {
  buffers = Dict.put target.cdn_name (add target.url buf) b.buffers;
  first_added = start_age target.cdn_name now buf b.first_added;
  last_added = Dict.put target.cdn_name now b.last_added;
  wake = Dict.put target.cdn_name true b.wake;
}

pub recorded-Only :
    (now : Seconds) (target : PurgeTarget) (buf : Urls) (b : Batcher)
    → Only target.cdn_name
        (recorded now target.url buf (slot target.cdn_name b))
        b
        (with_url now target buf b)
recorded-Only now target buf b =
    let cdn = target.cdn_name in
    Only-intro cdn (recorded now target.url buf (slot cdn b)) b (with_url now target buf b)
      (unfold slot recorded in
        Slot-eq (get-put_self cdn (add target.url buf) b.buffers)
          (start_age-aged cdn now buf b.first_added) (get-put_self cdn now b.last_added)
          (get-put_self cdn true b.wake) refl)
      (λ j e.
        unfold slot in
        Slot-eq (get-put_ne cdn j (add target.url buf) b.buffers e)
          (start_age_ne cdn j now buf b.first_added e) (get-put_ne cdn j now b.last_added e)
          (get-put_ne cdn j true b.wake e) refl)

pub Only-own : (cdn : Text) (s : Slot) (b b' : Batcher) → Only cdn s b b' → slot cdn b' ≡ s
Only-own cdn s b b' h = h cdn ∙ rw (beq_refl cdn)

pub Only-trans :
    (cdn : Text) (s t : Slot) (b b' b'' : Batcher)
    → Only cdn s b b'
    → Only cdn t b' b''
    → Only cdn t b b''
Only-trans cdn s t b b' b'' h k =
    Only-intro cdn t b b'' (Only-own cdn t b' b'' k) (λ j e. k j ∙ rw e (h j ∙ rw e))
