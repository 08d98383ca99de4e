-- ===== src/Queue/Validity.antt =====
-- The order of the ids of a table, under each statement.
use mirror_mirage.Prelude.{
  ℕ, suc, ◌≡◌, refl, ◌≤◌, ◌<◌, Option, none, some, ◌≢◌, In, inl, inr, List, [], ◌∷◌, ◌++◌, arith,
  All,
}
use mirror_mirage.Text.{Text}
use mirror_mirage.Config.{Seconds}
use mirror_mirage.Queue.Rows.{find_row, ids, ids-update, ids-append}
use mirror_mirage.Queue.{
  Row, Db, empty, is_pending_id, to_status, has_id, has_status, rescheduled, failed_with, done,
  in_flight, pending, select_ready, enqueue, claim_update, claim_ready, claim_row, mark_done,
  reschedule, mark_failed, reset_in_flight,
}

-- Ids rise, and none is above `top`.
abbrev pub Rising : ℕ → List ℕ → Type 0
Rising top [] = Unit
Rising top (i ∷ is) = (i ≤ top) × All (λ j. i < j) is × Rising top is

abbrev pub IsValid : Db → Type 0
IsValid db = Rising db.last_id (ids db.rows)

pub empty-IsValid : IsValid empty
empty-IsValid = tt

All-snoc : (P : ℕ → Type 0) (is : List ℕ) (j : ℕ) → All P is → P j → All P (is ++ j ∷ [])
All-snoc P [] j h k = (k, tt)
All-snoc P (i ∷ is) j h k = (h.0, All-snoc P is j h.1 k)

Rising-snoc : (top : ℕ) (is : List ℕ) → Rising top is → Rising (suc top) (is ++ suc top ∷ [])
Rising-snoc top [] h = (omega arith, tt, tt)
Rising-snoc top (i ∷ is) h =
    (omega arith, All-snoc (λ j. i < j) is (suc top) h.1 (omega arith), Rising-snoc top is h.2)

module _ (db : Db) (valid : IsValid db) where
  -- A new job keeps the table valid, and its id is above all that were there.
  pub enqueue-IsValid :
      (now : Seconds) (cdn : Text) (urls : List Text) → IsValid (enqueue now cdn urls db).1
  unfolding enqueue
  enqueue-IsValid now cdn urls =
      rw (ids-append db.rows) (Rising-snoc db.last_id (ids db.rows) valid)

  pub claim_update-IsValid : (i : ℕ) → IsValid (claim_update i db).1
  unfolding claim_update
  claim_update-IsValid i =
      rw (ids-update (is_pending_id i) (to_status in_flight) db.rows (λ r. refl)) valid

  pub mark_done-IsValid : (i : ℕ) → IsValid (mark_done i db)
  unfolding mark_done
  mark_done-IsValid i = rw (ids-update (has_id i) (to_status done) db.rows (λ r. refl)) valid

  pub reschedule-IsValid : (i n : ℕ) (at : Seconds) → IsValid (reschedule i n at db)
  unfolding reschedule
  reschedule-IsValid i n at =
      rw (ids-update (has_id i) (rescheduled n at) db.rows (λ r. refl)) valid

  pub mark_failed-IsValid : (i : ℕ) (message : Text) → IsValid (mark_failed i message db)
  unfolding mark_failed
  mark_failed-IsValid i message =
      rw (ids-update (has_id i) (failed_with message) db.rows (λ r. refl)) valid

  pub reset_in_flight-IsValid : IsValid (reset_in_flight db).1
  unfolding reset_in_flight
  reset_in_flight-IsValid =
      rw (ids-update (has_status in_flight) (to_status pending) db.rows (λ r. refl)) valid

claim_row-IsValid : (o : Option Row) (db : Db) → IsValid db → IsValid (claim_row o db).1
unfolding claim_row
claim_row-IsValid none db valid = valid
claim_row-IsValid (some r) db valid = claim_update-IsValid db valid r.id

pub claim_ready-IsValid :
    (cdn : Text) (now : Seconds) (db : Db) → IsValid db → IsValid (claim_ready cdn now db).1
unfolding claim_ready
claim_ready-IsValid cdn now db valid = claim_row-IsValid (select_ready cdn now db.rows) db valid

above-top : (top : ℕ) (is : List ℕ) (j : ℕ) → Rising top is → top < j → All (λ i. i < j) is
above-top top [] j h k = tt
above-top top (i ∷ is) j h k = (omega arith, above-top top is j h.2 k)

find_row_absent : (i : ℕ) (rs : List Row) → All (λ j. j ≢ i) (ids rs) → find_row i rs ≡ none
unfolding find_row
find_row_absent i [] h = refl
find_row_absent i (r ∷ rs) h = ground (arith, h.0, find_row_absent i rs h.1)

All-map : {P Q : ℕ → Type 0} (is : List ℕ) → ((i : ℕ) → P i → Q i) → All P is → All Q is
All-map [] f h = tt
All-map (i ∷ is) f h = (f i h.0, All-map is f h.1)

-- The id that the next `enqueue` gives is new.
pub find_row-fresh : (db : Db) → IsValid db → find_row (suc db.last_id) db.rows ≡ none
find_row-fresh db valid = find_row_absent (suc db.last_id) db.rows (
    All-map (ids db.rows) (λ i (h : i < suc db.last_id). λ e. omega arith)
      (above-top db.last_id (ids db.rows) (suc db.last_id) valid (omega arith)))

All-ids : (P : ℕ → Type 0) (rs : List Row) (r : Row) → All P (ids rs) → In r rs → P r.id
All-ids P [] r h m = absurd m
All-ids P (s ∷ rs) r h (inl e) = rw e h.0
All-ids P (s ∷ rs) r h (inr m) = All-ids P rs r h.1 m

-- In a valid table the row at a place is the one that its id finds.
pub find_row_self :
    (top : ℕ) (rs : List Row) (r : Row) → Rising top (ids rs) → In r rs → find_row r.id rs ≡ some r
unfolding find_row
find_row_self top [] r h m = absurd m
find_row_self top (s ∷ rs) r h (inl e) = rw e (ground arith)
find_row_self top (s ∷ rs) r h (inr m) =
    let lt : s.id < r.id = All-ids (λ j. s.id < j) rs r h.1 m in
    ground (arith, find_row_self top rs r h.2 m)
