-- ===== src/Providers/Verdict.antt =====
-- What the result of a batch says of its calls.
use mirror_mirage.Prelude.{
  ◌≡◌, refl, Bool, true, false, List, [], ◌∷◌, arith, inl, inr, In, keep, Bool-cases,
}
use mirror_mirage.Worker.{PurgeResult}
use mirror_mirage.Providers.{is_terminal, is_retryable, verdict, combine}

-- Every call succeeded; or one failed for good; or some failed, and all that failed may be retried.
pub data Explains (results : List PurgeResult) (r : PurgeResult) : Type 0 where
  all_ok : r.ok ≡ true → ((x : PurgeResult) → In x results → x.ok ≡ true) → Explains results r
  one_terminal :
      r.ok ≡ false
      → r.retryable ≡ false
      → (x : PurgeResult) → In x results
      → x.ok ≡ false
      → x.retryable ≡ false
      → Explains results r
  only_retryable :
      r.ok ≡ false
      → r.retryable ≡ true
      → (x : PurgeResult) → In x results
      → x.ok ≡ false
      → ((y : PurgeResult) → In y results → y.ok ≡ false → y.retryable ≡ true)
      → Explains results r

keep-In :
    (p : PurgeResult → Bool) (rs : List PurgeResult) (x : PurgeResult)
    → In x (keep p rs)
    → In x rs × (p x ≡ true)
keep-In p [] x m = absurd m
keep-In p (r ∷ rs) x m = elim (Bool-cases (p r)) [
  | inl e ↦ elim (rw e at m) [
    | inl same ↦ (inl same, rw same e)
    | inr n ↦ let (k, t) = keep-In p rs x n in (inr k, t)
  ]
  | inr e ↦ let (k, t) = keep-In p rs x (rw e at m) in (inr k, t)
]

keep-nil :
    (p : PurgeResult → Bool) (rs : List PurgeResult) (x : PurgeResult)
    → keep p rs ≡ []
    → In x rs
    → p x ≡ false
keep-nil p [] x h m = absurd m
keep-nil p (r ∷ rs) x h m = elim (Bool-cases (p r)) [
  | inl e ↦ cc (rw e at h)
  | inr e ↦ elim m [ inl same ↦ rw same e | inr n ↦ keep-nil p rs x (rw e at h) n ]
]

verdict-Explains :
    (results ts rs : List PurgeResult)
    → keep is_terminal results ≡ ts
    → keep is_retryable results ≡ rs
    → Explains results (verdict ts rs)
verdict-Explains results [] [] et er = all_ok refl (λ x m.
    ground (arith, keep-nil is_terminal results x et m, keep-nil is_retryable results x er m))
verdict-Explains results [] (r ∷ rs) et er =
    let (m, t) = keep-In is_retryable results r (rw er (inl refl)) in
    only_retryable refl refl r m (ground (arith, t))
      (λ y n h. ground (arith, keep-nil is_terminal results y et n))
verdict-Explains results (t ∷ ts) rs et er =
    let (m, b) = keep-In is_terminal results t (rw et (inl refl)) in
    one_terminal refl refl t m (ground (arith, b)) (ground (arith, b))

-- The result of a batch is a success only if every call succeeded, a terminal failure only if some
-- call failed for good, and a retryable failure only if some call failed and all that failed may be
-- retried.
pub combine-Explains : (results : List PurgeResult) → Explains results (combine results)
unfolding combine
combine-Explains results =
    verdict-Explains results (keep is_terminal results) (keep is_retryable results) refl refl
