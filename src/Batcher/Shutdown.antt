-- ===== src/Batcher/Shutdown.antt =====
-- The end of `Batcher.run`: after the cancellation of the debounce tasks, `flush_all` with a
-- `queue.enqueue` that may raise.
use mirror_mirage.Prelude.{
  ◌≡◌, refl, sym, subst, ◌⊎◌, Option, none, some, List, [], ◌∷◌, ◌++◌, inl, inr, In, Bool-cases,
  Option-cases, In-append_left, In-append_right,
}
use mirror_mirage.Text.{Text, text_eq, text_eq_iff}
use mirror_mirage.FilePath.{text_keys}
use mirror_mirage.Dict
use mirror_mirage.Dict.{keys}
use mirror_mirage.Outcome.{Exception}
use mirror_mirage.Batcher.{Batcher, Batch, buffer_of, flush_locked}
use mirror_mirage.Batcher.Slot.{Slot, slot}
use mirror_mirage.Batcher.Drain.{Handed, Handed-own, other_slot, key-In}

-- What `queue.enqueue` raises on a batch, if it does, when it has taken those of the list before.
abbrev pub Failing : Type 0
Failing = List Batch → Batch → Option Exception

-- The batcher, the batches that the queue has taken, in order, and the batch that it refused.
pub record Drained : Type 0 where
  pub batcher : Batcher
  pub stored : List Batch
  pub lost : Option (Batch × Exception)

abbrev refuse : Batcher → List Batch → Batch → (List Batch → Drained) → Option Exception → Drained
refuse b stored batch go_on (some e) = record {
  batcher = b;
  stored = stored;
  lost = some (batch, e);
}
refuse b stored batch go_on none = go_on (stored ++ batch ∷ [])

abbrev store : Failing → Batcher → List Batch → (List Batch → Drained) → Option Batch → Drained
store fails b stored go_on none = go_on stored
store fails b stored go_on (some batch) = refuse b stored batch go_on (fails stored batch)

-- The loop of `flush_all`, which an exception ends.
unfoldable pub drain : Failing → List Text → Batcher → List Batch → Drained
drain fails [] b stored = record { batcher = b; stored = stored; lost = none }
drain fails (cdn ∷ cdns) b stored =
    let (b', batch) = flush_locked cdn b in
    store fails b' stored (λ now. drain fails cdns b' now) batch

-- `run` once it is canceled. The exception is logged.
unfoldable pub shutdown : Failing → Batcher → Drained
shutdown fails b = drain fails (keys b.buffers) b []

-- The queue has the URL; or the queue raised, and the URL is in the batch that it refused or waits in
-- the buffer still.
pub data Fate (cdn u : Text) (r : Drained) : Type 0 where
  stored_there : Handed cdn u r.stored → Fate cdn u r
  refused_there :
      (batch : Batch) (e : Exception)
      → r.lost ≡ some (batch, e)
      → Handed cdn u (batch ∷ [])
      → Fate cdn u r
  waits_there :
      (batch : Batch) (e : Exception)
      → r.lost ≡ some (batch, e)
      → In u (buffer_of (Dict.get cdn r.batcher.buffers))
      → Fate cdn u r

Handed-append_left : (cdn u : Text) (xs ys : List Batch) → Handed cdn u xs → Handed cdn u (xs ++ ys)
Handed-append_left cdn u xs ys h = record {
  urls = h.urls;
  batch = In-append_left _ xs ys h.batch;
  url = h.url;
}

Handed-append_right :
    (cdn u : Text) (xs ys : List Batch) → Handed cdn u ys → Handed cdn u (xs ++ ys)
Handed-append_right cdn u xs ys h = record {
  urls = h.urls;
  batch = In-append_right _ xs ys h.batch;
  url = h.url;
}

nowhere : (cdn u : Text) → ¬ Handed cdn u []
nowhere cdn u h = h.batch

module _ (fails : Failing) (cdn u : Text) where
  -- Where the URL is when the flush of some CDN is over: with the queue, in the batch, or to be
  -- flushed.
  abbrev Ahead : List Text → Batcher → List Batch → Type 0
  Ahead cdns b stored =
      Handed cdn u stored ⊎ (In cdn cdns × In u (buffer_of (Dict.get cdn b.buffers)))

  store-Fate :
      (cdns : List Text) (b : Batcher) (stored : List Batch) (o : Option Batch)
      → Ahead cdns b stored ⊎ Handed cdn u (elim o [ none ↦ [] | some x ↦ x ∷ [] ])
      → ((now : List Batch) → Ahead cdns b now → Fate cdn u (drain fails cdns b now))
      → Fate cdn u (store fails b stored (λ now. drain fails cdns b now) o)
  store-Fate cdns b stored none (inl a) k = k stored a
  store-Fate cdns b stored none (inr h) k = absurd (nowhere cdn u h)
  store-Fate cdns b stored (some batch) a k = elim (Option-cases (fails stored batch)) [
    | inr (e, f) ↦
        rw (f, refuse)
          (elim a [
            | inl (inl h) ↦ stored_there h
            | inl (inr (n, m)) ↦ waits_there batch e refl m
            | inr h ↦ refused_there batch e refl h
          ])
    | inl f ↦
        rw (f, refuse)
          (k (stored ++ batch ∷ []) (elim a [
            | inl (inl h) ↦ inl (Handed-append_left cdn u stored (batch ∷ []) h)
            | inl (inr w) ↦ inr w
            | inr h ↦ inl (Handed-append_right cdn u stored (batch ∷ []) h)
          ]))
  ]

  flushed :
      (c : Text) (cdns : List Text) (b : Batcher) (stored : List Batch)
      → Ahead (c ∷ cdns) b stored
      → Ahead cdns (flush_locked c b).0 stored
        ⊎ Handed cdn u (elim (flush_locked c b).1 [ none ↦ [] | some x ↦ x ∷ [] ])
  unfolding slot
  flushed c cdns b stored (inl h) = inl (inl h)
  flushed c cdns b stored (inr (n, m)) = elim (Bool-cases (text_eq c cdn)) [
    | inl e ↦
        let same = (text_eq_iff c cdn).0 e in
        inr (
          subst
            (λ (x : Text). Handed x u (elim (flush_locked c b).1 [ none ↦ [] | some y ↦ y ∷ [] ]))
            same
            (Handed-own c u b []
              (subst (λ (x : Text). In u (buffer_of (slot x b).buffer)) (sym same) m)))
    | inr e ↦ inl (
        inr (
          elim n [ inl same ↦ absurd (cc (e, (text_eq_iff c cdn).1 (sym same))) | inr k ↦ k ],
          subst (λ (t : Slot). In u (buffer_of t.buffer)) (sym (other_slot c cdn b e)) m,
        ))
  ]

  drain-Fate :
      (cdns : List Text) (b : Batcher) (stored : List Batch)
      → Ahead cdns b stored
      → Fate cdn u (drain fails cdns b stored)
  unfolding drain
  drain-Fate [] b stored (inl h) = stored_there h
  drain-Fate [] b stored (inr (n, m)) = absurd n
  drain-Fate (c ∷ cdns) b stored a =
      store-Fate cdns (flush_locked c b).0 stored (flush_locked c b).1 (flushed c cdns b stored a)
        (λ now k. drain-Fate cdns (flush_locked c b).0 now k)

-- At a shutdown each URL that waits in a CDN's buffer ends in a batch of that CDN which the queue takes,
-- unless the queue raises on some batch: then it may also be in that batch, which nothing holds any more,
-- or still wait in its buffer.
pub shutdown-Fate :
    (fails : Failing) (b : Batcher) (cdn u : Text)
    → In u (buffer_of (Dict.get cdn b.buffers))
    → Fate cdn u (shutdown fails b)
unfolding shutdown
shutdown-Fate fails b cdn u m =
    drain-Fate fails cdn u (keys b.buffers) b [] (inr (key-In cdn u b.buffers m, m))
