-- ===== src/Providers/Limiter/Window.antt =====
-- How many calls are admitted in a window.
use mirror_mirage.Prelude.{
  ◌+◌, ◌≡◌, refl, ◌∙◌, ◌≤◌, ◌<◌, Bool, false, List, [], ◌∷◌, ◌++◌, arith, ltb, leb, leb→le, length,
  count, All, if◌then◌else◌, Bool-cases, inl, inr,
}
use mirror_mirage.Config.{Seconds}
use mirror_mirage.Providers.Limiter.{
  Limiter, drop_old, wait_for_oldest, turn, History, after_turn, turns, start,
}

-- The clock does not go back.
abbrev pub Forward : Seconds → List Seconds → Type 0
Forward now [] = Unit
Forward now (t ∷ ts) = (now ≤ t) × Forward t ts

-- The call at `a` is less than a window old at the time `t`.
abbrev live : Seconds → Seconds → Seconds → Bool
live window t a = ltb t (a + window)

-- The call at `a` lies in the window that ends at `t`.
abbrev pub in_window : Seconds → Seconds → Seconds → Bool
in_window window t a = if leb a t then ltb t (a + window) else false

abbrev Ascending : List Seconds → Type 0
Ascending [] = Unit
Ascending (c ∷ cs) = All (λ d. c ≤ d) cs × Ascending cs

module _ (window : Seconds) where
  count-drop_old :
      (now t : Seconds) (cs : List Seconds)
      → now ≤ t
      → count (live window t) (drop_old window now cs) ≡ count (live window t) cs
  unfolding drop_old
  count-drop_old now t [] h = refl
  count-drop_old now t (c ∷ cs) h = ground (arith, count-drop_old now t cs h)

  All-live :
      (now c : Seconds) (cs : List Seconds)
      → now < c + window
      → All (λ d. c ≤ d) cs
      → count (live window now) cs ≡ length cs
  All-live now c [] h k = refl
  All-live now c (d ∷ cs) h k =
      let lt : now < d + window = omega (arith, k.0) in ground (arith, All-live now c cs h k.1)

  length-drop_old :
      (now : Seconds) (cs : List Seconds)
      → Ascending cs
      → length (drop_old window now cs) ≡ count (live window now) cs
  unfolding drop_old
  length-drop_old now [] h = refl
  length-drop_old now (c ∷ cs) h = elim (Bool-cases (leb (c + window) now)) [
    | inl old ↦ rw old (length-drop_old now cs h.1 ∙ ground arith)
    | inr new ↦
        let lt : now < c + window = ground arith in
        rw new (ground (arith, All-live now c cs lt h.0))
  ]

  drop_old-All :
      (P : Seconds → Type 0) (now : Seconds) (cs : List Seconds)
      → All P cs
      → All P (drop_old window now cs)
  unfolding drop_old
  drop_old-All P now [] h = tt
  drop_old-All P now (c ∷ cs) h = elim (Bool-cases (leb (c + window) now)) [
    | inl old ↦ rw old (drop_old-All P now cs h.1)
    | inr new ↦ rw new h
  ]

  drop_old-Ascending :
      (now : Seconds) (cs : List Seconds) → Ascending cs → Ascending (drop_old window now cs)
  unfolding drop_old
  drop_old-Ascending now [] h = tt
  drop_old-Ascending now (c ∷ cs) h = elim (Bool-cases (leb (c + window) now)) [
    | inl old ↦ rw old (drop_old-Ascending now cs h.1)
    | inr new ↦ rw new h
  ]

  count-snoc :
      (p : Seconds → Bool) (cs : List Seconds) (now : Seconds)
      → count p (cs ++ now ∷ []) ≡ count p (now ∷ cs)
  count-snoc p [] now = refl
  count-snoc p (c ∷ cs) now = ground (arith, count-snoc p cs now)

  -- The window that ends at a later time sees no more of the calls than are live now.
  count-in_window-le :
      (now t : Seconds) (cs : List Seconds)
      → now ≤ t
      → count (in_window window t) cs ≤ count (live window now) cs
  count-in_window-le now t [] h = omega arith
  count-in_window-le now t (c ∷ cs) h = ground (arith, count-in_window-le now t cs h)

All-later : (m n : Seconds) (cs : List Seconds) → m ≤ n → All (λ c. c ≤ m) cs → All (λ c. c ≤ n) cs
All-later m n [] h k = tt
All-later m n (c ∷ cs) h k = (omega (arith, k.0), All-later m n cs h k.1)

All-snoc :
    (P : Seconds → Type 0) (cs : List Seconds) (c : Seconds) → All P cs → P c → All P (cs ++ c ∷ [])
All-snoc P [] c h k = (k, tt)
All-snoc P (d ∷ cs) c h k = (h.0, All-snoc P cs c h.1 k)

Ascending-snoc :
    (cs : List Seconds) (now : Seconds)
    → Ascending cs
    → All (λ c. c ≤ now) cs
    → Ascending (cs ++ now ∷ [])
Ascending-snoc [] now h k = (tt, tt)
Ascending-snoc (c ∷ cs) now h k =
    (All-snoc (λ d. c ≤ d) cs now h.0 k.0, Ascending-snoc cs now h.1 k.1)

-- The deque holds, of all admissions, those that can still matter, and no window is overfull.
pub record Inv (l : Limiter) (clock : Seconds) (h : History) : Type 0 where
  pub ascending : Ascending h.calls
  pub past : All (λ c. c ≤ clock) h.calls
  pub faithful :
      (t : Seconds)
      → clock ≤ t
      → count (live l.window_seconds t) h.calls ≡ count (live l.window_seconds t) h.admissions
  pub bounded : (t : Seconds) → count (in_window l.window_seconds t) h.admissions ≤ l.capacity

module _ (l : Limiter) (now : Seconds) where
  Inv-later : (clock : Seconds) (h : History) → clock ≤ now → Inv l clock h → Inv l now h
  Inv-later clock h le v = record {
    ascending = v.ascending;
    past = All-later clock now h.calls le v.past;
    faithful = λ t k. v.faithful t (omega arith);
    bounded = v.bounded;
  }

  Inv-dropped :
      (h : History)
      → Inv l now h
      → Inv l now (record h { calls = drop_old l.window_seconds now h.calls })
  Inv-dropped h v = record {
    ascending = drop_old-Ascending l.window_seconds now h.calls v.ascending;
    past = drop_old-All l.window_seconds (λ c. c ≤ now) now h.calls v.past;
    faithful = λ t k. count-drop_old l.window_seconds now t h.calls k ∙ v.faithful t k;
    bounded = v.bounded;
  }

  Inv-admitted :
      (h : History)
      → Inv l now h
      → count (live l.window_seconds now) h.calls < l.capacity
      → Inv l now (record { admissions = now ∷ h.admissions; calls = h.calls ++ now ∷ [] })
  Inv-admitted h v room = record {
    ascending = Ascending-snoc h.calls now v.ascending v.past;
    past = All-snoc (λ c. c ≤ now) h.calls now v.past (omega arith);
    faithful = λ t k.
        count-snoc l.window_seconds (live l.window_seconds t) h.calls now
        ∙ ground (arith, v.faithful t k);
    bounded = λ t. elim (Bool-cases (leb now t)) [
      | inl le ↦
          let before = v.faithful now (omega arith) in
          ground (
            arith,
            count-in_window-le l.window_seconds now t h.admissions (leb→le now t le),
            before,
          )
      | inr gt ↦ ground (arith, v.bounded t)
    ];
  }

  after_wait-Inv :
      (h : History) (cs : List Seconds)
      → Inv l now h
      → Inv l now (record h { calls = cs })
      → Inv l now (after_turn now (wait_for_oldest l.window_seconds now cs) h)
  after_wait-Inv h [] v w = v
  after_wait-Inv h (c ∷ cs) v w = w

  turn-Inv :
      (clock : Seconds) (h : History)
      → clock ≤ now
      → Inv l clock h
      → Inv l now (after_turn now (turn l now h.calls) h)
  unfolding turn
  turn-Inv clock h le v =
      let w = Inv-later clock h le v in
      let cs = drop_old l.window_seconds now h.calls in
      let x = Inv-dropped h w in
      elim (Bool-cases (ltb (length cs) l.capacity)) [
        | inl room ↦ rw room (
            Inv-admitted (record h { calls = cs }) x
              (rw
                (
                  count-drop_old l.window_seconds now now h.calls (omega arith),
                  ← length-drop_old l.window_seconds now h.calls w.ascending,
                )
                (ground arith)))
        | inr full ↦ rw full (after_wait-Inv h cs w x)
      ]

start-Inv : (l : Limiter) (now : Seconds) → Inv l now start
start-Inv l now = record {
  ascending = tt;
  past = tt;
  faithful = λ t k. refl;
  bounded = λ t. omega arith;
}

turns-bounded :
    (l : Limiter) (now : Seconds) (times : List Seconds) (h : History)
    → Forward now times
    → Inv l now h
    → (t : Seconds) → count (in_window l.window_seconds t) (turns l times h).admissions ≤ l.capacity
unfolding turns
turns-bounded l now [] h f v t = v.bounded t
turns-bounded l now (time ∷ times) h f v t =
    turns-bounded l time times (after_turn time (turn l time h.calls) h) f.1
      (turn-Inv l time now h f.0 v) t

-- Whatever the times of the turns, as long as the clock does not go back: in every window of
-- `window_seconds`, wherever it ends, at most `capacity` calls are admitted.
pub admissions-le-capacity :
    (l : Limiter) (times : List Seconds) (t : Seconds)
    → Forward 0 times
    → count (in_window l.window_seconds t) (turns l times start).admissions ≤ l.capacity
admissions-le-capacity l times t f = turns-bounded l 0 times start f (start-Inv l 0) t
