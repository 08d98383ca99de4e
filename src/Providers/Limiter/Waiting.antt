-- ===== src/Providers/Limiter/Waiting.antt =====
-- How long a refused call waits.
use native.Mathlib.Nat.{le_trans}
use mirror_mirage.Prelude.{
  ◌+◌, ◌-◌, ◌≡◌, refl, subst, ◌≤◌, ◌<◌, List, [], ◌∷◌, ◌++◌, arith, ltb, leb, le→leb, length,
  Bool-cases, inl, inr,
}
use mirror_mirage.Config.{Seconds}
use mirror_mirage.Providers.Limiter.{
  Limiter, admitted, waits, index_error, drop_old, wait_for_oldest, turn,
}

drop_old-le :
    (window now : Seconds) (cs : List Seconds) → length (drop_old window now cs) ≤ length cs
unfolding drop_old
drop_old-le window now [] = omega arith
drop_old-le window now (c ∷ cs) = ground (arith, drop_old-le window now cs)

drop_old-head :
    (window now c : Seconds) (cs calls : List Seconds)
    → drop_old window now calls ≡ c ∷ cs
    → now < c + window
unfolding drop_old
drop_old-head window now c cs [] h = cc
drop_old-head window now c cs (x ∷ calls) h = elim (Bool-cases (leb (x + window) now)) [
  | inl old ↦ drop_old-head window now c cs calls (rw old at h)
  | inr new ↦ let same : x ≡ c = cc (rw new at h) in ground arith
]

-- The deque that is left, when it holds the oldest call `c`.
record Full (l : Limiter) (now : Seconds) (calls : List Seconds) (d : Seconds) (kept : List Seconds)
    : Type 0 where
  oldest : Seconds
  others : List Seconds
  left : drop_old l.window_seconds now calls ≡ oldest ∷ others
  kept_all : kept ≡ oldest ∷ others
  delay : d ≡ oldest + l.window_seconds - now

wait_for_oldest-Full :
    (l : Limiter) (now d : Seconds) (calls cs kept : List Seconds)
    → drop_old l.window_seconds now calls ≡ cs
    → wait_for_oldest l.window_seconds now cs ≡ waits d kept
    → Full l now calls d kept
wait_for_oldest-Full l now d calls [] kept e h = cc
wait_for_oldest-Full l now d calls (c ∷ cs) kept e h = record {
  oldest = c;
  others = cs;
  left = e;
  kept_all = cc;
  delay = cc;
}

turn-Full :
    (l : Limiter) (now d : Seconds) (calls kept : List Seconds)
    → turn l now calls ≡ waits d kept
    → Full l now calls d kept
unfolding turn
turn-Full l now d calls kept h =
    elim (Bool-cases (ltb (length (drop_old l.window_seconds now calls)) l.capacity)) [
      | inl room ↦ cc (rw room at h)
      | inr full ↦
          wait_for_oldest-Full l now d calls (drop_old l.window_seconds now calls) kept refl
            (rw full at h)
    ]

drop_old-skip :
    (window now c : Seconds) (cs : List Seconds)
    → c + window ≤ now
    → drop_old window now (c ∷ cs) ≡ drop_old window now cs
unfolding drop_old
drop_old-skip window now c cs h = rw (le→leb _ _ h)

turn-admits :
    (l : Limiter) (later c : Seconds) (cs : List Seconds)
    → c + l.window_seconds ≤ later
    → length (c ∷ cs) ≤ l.capacity
    → turn l later (c ∷ cs) ≡ admitted (drop_old l.window_seconds later cs ++ later ∷ [])
unfolding turn
turn-admits l later c cs le short =
    rw (drop_old-skip l.window_seconds later c cs le)
      (ground (arith, drop_old-le l.window_seconds later cs))

-- With at most `capacity` calls in the deque, a call that is told to wait waits a positive time,
-- and when it tries again after exactly that time, with no turn of another caller in between, it is
-- admitted.
pub turn-waits :
    (l : Limiter) (now d : Seconds) (calls kept : List Seconds)
    → length calls ≤ l.capacity
    → turn l now calls ≡ waits d kept
    → (0 < d) × (rest : List Seconds) × (turn l (now + d) kept ≡ admitted (rest ++ (now + d) ∷ []))
turn-waits l now d calls kept short h =
    let f = turn-Full l now d calls kept h in
    let c = f.oldest in
    let above : now < c + l.window_seconds =
      drop_old-head l.window_seconds now c f.others calls f.left in
    let delay : d ≡ c + l.window_seconds - now = f.delay in
    let fits : length (c ∷ f.others) ≤ l.capacity =
      subst (λ (xs : List Seconds). length xs ≤ l.capacity) f.left
        (le_trans (drop_old-le l.window_seconds now calls) short) in
    (
      omega arith,
      drop_old l.window_seconds (now + d) f.others,
      rw f.kept_all (turn-admits l (now + d) c f.others (omega arith) fits),
    )

-- With a capacity of 0 every call raises IndexError.
pub turn_no_capacity : (l : Limiter) (now : Seconds) → l.capacity ≡ 0 → turn l now [] ≡ index_error
unfolding turn drop_old
turn_no_capacity l now h = rw h
