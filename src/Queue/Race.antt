-- ===== src/Queue/Race.antt =====
-- Claimers that race: the SELECT and the UPDATE of `claim_ready` are two steps, between which any
-- other claimer may run. A claimer that took a job holds it until it settles it.
use mirror_mirage.Prelude.{
  ℕ, zero, suc, ◌+◌, ◌≡◌, refl, subst, ◌≤◌, ◌<◌, Bool, false, some, List, [], ◌∷◌, ◌++◌, arith, All,
  inl, inr, count, ◌==◌, ==_iff, if◌then◌else◌, Bool-cases,
}
use mirror_mirage.Text.{Text}
use mirror_mirage.Config.{Seconds}
use mirror_mirage.Queue
use mirror_mirage.Queue.{
  Status, pending, in_flight, done, failed, status_eq, Row, Db, update, select_ready, claim_update,
  is_pending_id, has_id, to_status, mark_done, mark_failed, reschedule, failed_with, rescheduled,
}
use mirror_mirage.Queue.Enqueue.{new_row}
use mirror_mirage.Queue.Rows.{ids}
use mirror_mirage.Queue.Validity.{
  IsValid, Rising, enqueue-IsValid, claim_update-IsValid, mark_done-IsValid, mark_failed-IsValid,
  reschedule-IsValid,
}

-- Where a claimer stands.
pub data Phase : Type 0 where
  idle : Phase
  selected : ℕ → Phase
  holding : ℕ → Phase

pub record System : Type 0 where
  pub db : Db
  pub claimers : List Phase

-- What the claimer has after its UPDATE changed so many rows.
abbrev won : ℕ → ℕ → Phase
won job_id zero = idle
won job_id (suc _) = holding job_id

-- Any claimer may make the next step.
pub data Step : System → System → Type 0 where
  select :
      (db : Db) (before after : List Phase) (cdn : Text) (now : Seconds) (r : Row)
      → select_ready cdn now db.rows ≡ some r
      → Step
          (record { db = db; claimers = before ++ idle ∷ after })
          (record { db = db; claimers = before ++ selected r.id ∷ after })
  take :
      (db : Db) (before after : List Phase) (i : ℕ)
      → Step
          (record { db = db; claimers = before ++ selected i ∷ after })
          (record {
            db = (claim_update i db).1;
            claimers = before ++ won i (claim_update i db).0 ∷ after;
          })
  finish :
      (db : Db) (before after : List Phase) (i : ℕ)
      → Step
          (record { db = db; claimers = before ++ holding i ∷ after })
          (record { db = mark_done i db; claimers = before ++ idle ∷ after })
  fail :
      (db : Db) (before after : List Phase) (i : ℕ) (message : Text)
      → Step
          (record { db = db; claimers = before ++ holding i ∷ after })
          (record { db = mark_failed i message db; claimers = before ++ idle ∷ after })
  retry :
      (db : Db) (before after : List Phase) (i attempts : ℕ) (at : Seconds)
      → Step
          (record { db = db; claimers = before ++ holding i ∷ after })
          (record { db = reschedule i attempts at db; claimers = before ++ idle ∷ after })
  enqueue :
      (db : Db) (claimers : List Phase) (now : Seconds) (cdn : Text) (urls : List Text)
      → Step
          (record { db = db; claimers = claimers })
          (record { db = (Queue.enqueue now cdn urls db).1; claimers = claimers })

pub data Reach (s : System) : System → Type 0 where
  here : Reach s s
  next : {t u : System} → Reach s t → Step t u → Reach s u

abbrev pub is_holding : ℕ → Phase → Bool
is_holding i idle = false
is_holding i (selected j) = false
is_holding i (holding j) = j == i

-- The number of claimers that hold a job, and of rows in flight under its id.
abbrev pub holders : ℕ → System → ℕ
holders i s = count (is_holding i) s.claimers

abbrev in_flight_id : ℕ → Row → Bool
in_flight_id i r = if r.id == i then status_eq r.status in_flight else false

abbrev flights : ℕ → List Row → ℕ
flights i rs = count (in_flight_id i) rs

count_above : (i : ℕ) (rs : List Row) → All (λ j. i < j) (ids rs) → count (has_id i) rs ≡ 0
count_above i [] h = refl
count_above i (r ∷ rs) h = ground (arith, h.0, count_above i rs h.1)

-- At most one row has an id.
count_id : (i top : ℕ) (rs : List Row) → Rising top (ids rs) → count (has_id i) rs ≤ 1
count_id i top [] h = omega arith
count_id i top (r ∷ rs) h = elim (Bool-cases (r.id == i)) [
  | inl e ↦
      let above : All (λ j. i < j) (ids rs) =
        subst (λ k. All (λ j. k < j) (ids rs)) ((==_iff r.id i).0 e) h.1 in
      rw (e, count_above i rs above) (omega arith)
  | inr e ↦ rw e (count_id i top rs h.2)
]

-- How the statements change the number of flights.
flights-take :
    (i j : ℕ) (rs : List Row)
    → flights j (update (is_pending_id i) (to_status in_flight) rs)
      ≡ (if i == j then flights j rs + count (is_pending_id i) rs else flights j rs)
unfolding update status_eq
flights-take i j [] = ground arith
flights-take i j (r ∷ rs) = ground (arith, flights-take i j rs)

flights-settle :
    (set_ : Row → Row) (i j : ℕ) (rs : List Row)
    → ((r : Row) → (set_ r).id ≡ r.id)
    → ((r : Row) → status_eq (set_ r).status in_flight ≡ false)
    → flights j (update (has_id i) set_ rs) ≡ (if i == j then 0 else flights j rs)
unfolding update
flights-settle set_ i j [] same out = ground arith
flights-settle set_ i j (r ∷ rs) same out =
    ground (arith, same r, out r, flights-settle set_ i j rs same out)

count-middle :
    (i : ℕ) (before after : List Phase) (x : Phase)
    → count (is_holding i) (before ++ x ∷ after)
      ≡ count (is_holding i) (before ++ after) + (if is_holding i x then 1 else 0)
count-middle i [] after x = ground arith
count-middle i (y ∷ before) after x = ground (arith, count-middle i before after x)

flights-le : (i : ℕ) (rs : List Row) → flights i rs ≤ count (has_id i) rs
flights-le i [] = omega arith
flights-le i (r ∷ rs) = ground (arith, flights-le i rs)

pending-le : (i : ℕ) (rs : List Row) → count (is_pending_id i) rs ≤ count (has_id i) rs
unfolding status_eq
pending-le i [] = omega arith
pending-le i (r ∷ rs) = ground (arith, pending-le i rs)

flights-append :
    (i : ℕ) (rs : List Row) (r : Row) → r.status ≡ pending → flights i (rs ++ r ∷ []) ≡ flights i rs
unfolding status_eq
flights-append i [] r h = ground arith
flights-append i (s ∷ rs) r h = ground (arith, flights-append i rs r h)

won_count :
    (i j n : ℕ) → n ≤ 1 → (if is_holding j (won i n) then 1 else 0) ≡ (if i == j then n else 0)
won_count i j zero h = ground arith
won_count i j (suc n) h = ground arith

-- The jobs in flight are exactly those that claimers hold.
pub record Inv (s : System) : Type 0 where
  pub valid : IsValid s.db
  pub held : (i : ℕ) → holders i s ≡ flights i s.db.rows

flights_one : (db : Db) → IsValid db → (i : ℕ) → flights i db.rows ≤ 1
flights_one db valid i = omega (arith, flights-le i db.rows, count_id i db.last_id db.rows valid)

-- A claimer that settles the job that it holds.
settle-held :
    (db : Db) (before after : List Phase) (i : ℕ) (set_ : Row → Row)
    → ((r : Row) → (set_ r).id ≡ r.id)
    → ((r : Row) → status_eq (set_ r).status in_flight ≡ false)
    → Inv (record { db = db; claimers = before ++ holding i ∷ after })
    → (j : ℕ)
    → count (is_holding j) (before ++ idle ∷ after) ≡ flights j (update (has_id i) set_ db.rows)
settle-held db before after i set_ same out v j = ground (
  arith,
  count-middle j before after idle,
  count-middle j before after (holding i),
  flights-settle set_ i j db.rows same out,
  v.held j,
  flights_one db v.valid j,
)

pub Step-Inv : {s t : System} → Step s t → Inv s → Inv t
unfolding mark_done mark_failed reschedule status_eq Queue.enqueue claim_update
Step-Inv (select db before after cdn now r h) v = record {
  valid = v.valid;
  held = λ j.
      rw (count-middle j before after (selected r.id), ← count-middle j before after idle)
        (v.held j);
}
Step-Inv (take db before after i) v = record {
  valid = claim_update-IsValid db v.valid i;
  held = λ j. ground (
    arith,
    count-middle j before after (selected i),
    count-middle j before after (won i (count (is_pending_id i) db.rows)),
    won_count i j (count (is_pending_id i) db.rows),
    flights-take i j db.rows,
    v.held j,
    pending-le i db.rows,
    count_id i db.last_id db.rows v.valid,
  );
}
Step-Inv (finish db before after i) v = record {
  valid = mark_done-IsValid db v.valid i;
  held = settle-held db before after i (to_status done) (λ r. refl) (λ r. refl) v;
}
Step-Inv (fail db before after i message) v = record {
  valid = mark_failed-IsValid db v.valid i message;
  held = settle-held db before after i (failed_with message) (λ r. refl) (λ r. refl) v;
}
Step-Inv (retry db before after i attempts at) v = record {
  valid = reschedule-IsValid db v.valid i attempts at;
  held = settle-held db before after i (rescheduled attempts at) (λ r. refl) (λ r. refl) v;
}
Step-Inv (enqueue db claimers now cdn urls) v = record {
  valid = enqueue-IsValid db v.valid now cdn urls;
  held = λ j. rw (flights-append j db.rows (new_row (suc db.last_id) now cdn urls) refl) (v.held j);
}

Reach-Inv : {s t : System} → Inv s → Reach s t → Inv t
Reach-Inv v here = v
Reach-Inv v (next r st) = Step-Inv st (Reach-Inv v r)

-- From a state with a valid table in which each job in flight has one holder, however claimers
-- interleave their SELECTs, UPDATEs and settling statements with each other and with new jobs: no
-- job is ever held by two claimers.
pub holders-le-one : {s t : System} → Inv s → Reach s t → (i : ℕ) → holders i t ≤ 1
holders-le-one {t = t} v r i =
    let w = Reach-Inv v r in omega (arith, w.held i, flights_one t.db w.valid i)
