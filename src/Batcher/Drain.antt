-- ===== src/Batcher/Drain.antt =====
-- `flush_all`, which a graceful shutdown ends with: the buffers after it and the batches it gives.
use mirror_mirage.Prelude.{
  ◌≡◌, refl, sym, ap, subst, ◌∙◌, true, false, Option, none, some, List, [], ◌∷◌, inl, inr, In,
  Bool-cases,
}
use mirror_mirage.Text.{Text, text_eq, text_eq_iff}
use mirror_mirage.FilePath.{text_keys}
use mirror_mirage.Dict
use mirror_mirage.Dict.{Dict, keys}
use mirror_mirage.Batcher.{
  Batcher, Batch, Urls, buffer_of, flush_locked, flush_each, flush_all, keys,
}
use mirror_mirage.Batcher.Slot.{Slot, slot, flush_slot, flush_locked-Refines}
use mirror_mirage.Batcher.Invariant.{flush-buffer}

-- The batches have the URL for the CDN.
pub record Handed (cdn u : Text) (batches : List Batch) : Type 0 where
  pub urls : Urls
  pub batch : In (cdn, urls) batches
  pub url : In u urls

Handed-later :
    (cdn u : Text) (o : Option Batch) (batches : List Batch)
    → Handed cdn u batches
    → Handed cdn u (elim o [ none ↦ batches | some x ↦ x ∷ batches ])
Handed-later cdn u none batches h = h
Handed-later cdn u (some x) batches h = record { urls = h.urls; batch = inr h.batch; url = h.url }

Handed-first_at :
    (cdn u : Text) (s : Slot) (o : Option Urls) (batches : List Batch)
    → In u (buffer_of o)
    → Handed cdn u (elim (mirror_mirage.Batcher.Slot.flush_buffer cdn o s).1 [
      | none ↦ batches
      | some x ↦ x ∷ batches
    ])
Handed-first_at cdn u s none batches m = absurd m
Handed-first_at cdn u s (some []) batches m = absurd m
Handed-first_at cdn u s (some (v ∷ vs)) batches m = record {
  urls = v ∷ vs;
  batch = inl refl;
  url = m;
}

-- The slot of another CDN is as before, and the CDN's own is empty.
pub other_slot :
    (c cdn : Text) (b : Batcher)
    → text_eq c cdn ≡ false
    → slot cdn (flush_locked c b).0 ≡ slot cdn b
other_slot c cdn b e = let s = (flush_locked-Refines c b).slots cdn in rw e at s

own_buffer :
    (c cdn : Text) (b : Batcher)
    → text_eq c cdn ≡ true
    → buffer_of (slot cdn (flush_locked c b).0).buffer ≡ []
own_buffer c cdn b e =
    let s = (flush_locked-Refines c b).slots cdn in
    ap (λ (t : Slot). buffer_of t.buffer) (rw e at s) ∙ flush-buffer c (slot c b)

empty_stays :
    (cdns : List Text) (b : Batcher) (cdn : Text)
    → buffer_of (slot cdn b).buffer ≡ []
    → buffer_of (slot cdn (flush_each cdns b).0).buffer ≡ []
unfolding flush_each
empty_stays [] b cdn h = h
empty_stays (c ∷ cs) b cdn h =
    empty_stays cs (flush_locked c b).0 cdn (elim (Bool-cases (text_eq c cdn)) [
      | inl e ↦ own_buffer c cdn b e
      | inr e ↦ ap (λ (t : Slot). buffer_of t.buffer) (other_slot c cdn b e) ∙ h
    ])

flush_each-emptied :
    (cdns : List Text) (b : Batcher) (cdn : Text)
    → In cdn cdns
    → buffer_of (slot cdn (flush_each cdns b).0).buffer ≡ []
unfolding flush_each
flush_each-emptied [] b cdn m = absurd m
flush_each-emptied (c ∷ cs) b cdn (inl e) =
    empty_stays cs (flush_locked c b).0 cdn (own_buffer c cdn b ((text_eq_iff c cdn).1 (sym e)))
flush_each-emptied (c ∷ cs) b cdn (inr m) = flush_each-emptied cs (flush_locked c b).0 cdn m

pub Handed-own :
    (c u : Text) (b : Batcher) (batches : List Batch)
    → In u (buffer_of (slot c b).buffer)
    → Handed c u (elim (flush_locked c b).1 [ none ↦ batches | some x ↦ x ∷ batches ])
unfolding flush_slot
Handed-own c u b batches m =
    subst (λ (o : Option Batch). Handed c u (elim o [ none ↦ batches | some x ↦ x ∷ batches ]))
      (sym (flush_locked-Refines c b).batch)
      (Handed-first_at c u (slot c b) (slot c b).buffer batches m)

flush_each-Handed :
    (cdns : List Text) (b : Batcher) (cdn u : Text)
    → In cdn cdns
    → In u (buffer_of (slot cdn b).buffer)
    → Handed cdn u (flush_each cdns b).1
unfolding flush_each
flush_each-Handed [] b cdn u n m = absurd n
flush_each-Handed (c ∷ cs) b cdn u n m = elim (Bool-cases (text_eq c cdn)) [
  | inl e ↦
      let same = (text_eq_iff c cdn).0 e in
      subst (λ (x : Text). Handed x u (flush_each (c ∷ cs) b).1) same
        (Handed-own c u b (flush_each cs (flush_locked c b).0).1
          (subst (λ (x : Text). In u (buffer_of (slot x b).buffer)) (sym same) m))
  | inr e ↦ Handed-later cdn u (flush_locked c b).1 (flush_each cs (flush_locked c b).0).1 (
      flush_each-Handed cs (flush_locked c b).0 cdn u
        (elim n [ inl same ↦ absurd (cc (e, (text_eq_iff c cdn).1 (sym same))) | inr k ↦ k ])
        (subst (λ (t : Slot). In u (buffer_of t.buffer)) (sym (other_slot c cdn b e)) m))
]

pub key-In :
    (cdn u : Text) (d : Dict Text Urls) → In u (buffer_of (Dict.get cdn d)) → In cdn (keys d)
unfolding Dict.get
key-In cdn u [] m = absurd m
key-In cdn u ((k, urls) ∷ d) m = elim (Bool-cases (text_eq k cdn)) [
  | inl e ↦ inl (sym ((text_eq_iff k cdn).0 e))
  | inr e ↦ inr (key-In cdn u d (rw e at m))
]

-- `flush_all` hands each URL that waits in any CDN's buffer to the queue in a batch for that CDN,
-- and leaves the buffer of that CDN empty.
pub flush_all-Handed :
    (b : Batcher) (cdn u : Text)
    → In u (buffer_of (Dict.get cdn b.buffers))
    → Handed cdn u (flush_all b).1 × (buffer_of (Dict.get cdn (flush_all b).0.buffers) ≡ [])
unfolding flush_all slot
flush_all-Handed b cdn u m =
    let n = key-In cdn u b.buffers m in
    (flush_each-Handed (keys b.buffers) b cdn u n m, flush_each-emptied (keys b.buffers) b cdn n)
