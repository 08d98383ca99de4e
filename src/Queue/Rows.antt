-- ===== src/Queue/Rows.antt =====
-- Looking a row up by its id, and how updates show in it.
use mirror_mirage.Prelude.{
  ℕ, ◌≡◌, refl, Bool, Option, none, some, List, [], ◌∷◌, ◌++◌, inl, inr, sym, ap, Bool-cases,
  some_inj, none-ne-some, arith, In, ◌==◌, ==_iff, if◌then◌else◌,
}
use mirror_mirage.Queue.{Row, update}

-- The row with an id.
unfoldable pub find_row : ℕ → List Row → Option Row
find_row i [] = none
find_row i (r ∷ rs) = if r.id == i then some r else find_row i rs

-- An UPDATE, seen through one row.
abbrev pub updated : (Row → Bool) → (Row → Row) → Option Row → Option Row
updated where_ set_ none = none
updated where_ set_ (some r) = some (if where_ r then set_ r else r)

pub find_row-update :
    (where_ : Row → Bool) (set_ : Row → Row) (i : ℕ) (rs : List Row)
    → ((r : Row) → (set_ r).id ≡ r.id)
    → find_row i (update where_ set_ rs) ≡ updated where_ set_ (find_row i rs)
unfolding find_row update
find_row-update where_ set_ i [] keeps = refl
find_row-update where_ set_ i (r ∷ rs) keeps =
    ground (arith, keeps r, find_row-update where_ set_ i rs keeps)

pub find_row_id : (i : ℕ) (rs : List Row) {r : Row} → find_row i rs ≡ some r → r.id ≡ i
unfolding find_row
find_row_id i [] h = cc
find_row_id i (s ∷ rs) h = elim (Bool-cases (s.id == i)) [
  | inl e ↦ rw (← some_inj (rw e at h)) ((==_iff s.id i).0 e)
  | inr e ↦ find_row_id i rs (rw e at h)
]

pub find_row-In : (i : ℕ) (rs : List Row) {r : Row} → find_row i rs ≡ some r → In r rs
unfolding find_row
find_row-In i [] h = absurd (none-ne-some refl h)
find_row-In i (s ∷ rs) h = elim (Bool-cases (s.id == i)) [
  | inl e ↦ inl (sym (some_inj (rw e at h)))
  | inr e ↦ inr (find_row-In i rs (rw e at h))
]

pub find_row-append :
    (i : ℕ) (rs ss : List Row)
    → find_row i (rs ++ ss) ≡ elim (find_row i rs) [ none ↦ find_row i ss | some r ↦ some r ]
unfolding find_row
find_row-append i [] ss = refl
find_row-append i (r ∷ rs) ss = ground (arith, find_row-append i rs ss)

-- The ids of a table, which no UPDATE changes.
abbrev pub ids : List Row → List ℕ
ids [] = []
ids (r ∷ rs) = r.id ∷ ids rs

pub ids-update :
    (where_ : Row → Bool) (set_ : Row → Row) (rs : List Row)
    → ((r : Row) → (set_ r).id ≡ r.id)
    → ids (update where_ set_ rs) ≡ ids rs
unfolding update
ids-update where_ set_ [] keeps = refl
ids-update where_ set_ (r ∷ rs) keeps = ground (arith, keeps r, ids-update where_ set_ rs keeps)

pub ids-append : (rs ss : List Row) → ids (rs ++ ss) ≡ ids rs ++ ids ss
ids-append [] ss = refl
ids-append (r ∷ rs) ss = ap (λ (l : List ℕ). r.id ∷ l) (ids-append rs ss)
