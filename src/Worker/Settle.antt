-- ===== src/Worker/Settle.antt =====
-- What the statements that settle a job do to the rows of the table.
use mirror_mirage.Prelude.{
  ℕ, ◌≡◌, false, some, List, arith, ◌==◌, if◌then◌else◌, Bool-cases, Option-cases, inl, inr,
}
use mirror_mirage.Queue.{Row, update, has_id}
use mirror_mirage.Queue.Rows.{find_row, find_row-update, find_row_id, updated}

-- The table `rs` is the table `old` with the row `r` under the id `i`.
abbrev pub Replaced : ℕ → Row → List Row → List Row → Type 0
Replaced i r old rs = (j : ℕ) → find_row j rs ≡ (if i == j then some r else find_row j old)

updated_other :
    (set_ : Row → Row) (i j : ℕ) (rs : List Row)
    → (i == j) ≡ false
    → updated (has_id i) set_ (find_row j rs) ≡ find_row j rs
updated_other set_ i j rs ne = elim (Option-cases (find_row j rs)) [
  | inl e ↦ rw e
  | inr (s, e) ↦ rw e (ground (arith, find_row_id j rs e))
]

-- An UPDATE of one id, after the row under that id has been replaced.
pub Replaced-update :
    (set_ : Row → Row) (r : Row) (i : ℕ) (old rs : List Row)
    → ((s : Row) → (set_ s).id ≡ s.id)
    → r.id ≡ i
    → Replaced i r old rs
    → Replaced i (set_ r) old (update (has_id i) set_ rs)
Replaced-update set_ r i old rs keeps own table j =
    rw (find_row-update (has_id i) set_ j rs keeps, table j)
      (elim (Bool-cases (i == j)) [
        | inl e ↦ rw e (ground (arith, own))
        | inr e ↦ rw e (updated_other set_ i j old e)
      ])
