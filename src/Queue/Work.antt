-- ===== src/Queue/Work.antt =====
-- What the table holds of the work itself, the batch of each id, under any statements.
use mirror_mirage.Prelude.{
  ℕ, suc, ◌≡◌, refl, sym, ap, ◌∙◌, Option, none, some, List, [], ◌∷◌, ◌++◌, arith, Bool, ◌≤◌,
}
use mathlib.Core.List.{append-nil, append_assoc}
use mirror_mirage.Text.{Text}
use mirror_mirage.Config.{Seconds}
use mirror_mirage.Queue
use mirror_mirage.Queue.Validity.{
  IsValid, enqueue-IsValid, claim_ready-IsValid, claim_update-IsValid, mark_done-IsValid,
  reschedule-IsValid, mark_failed-IsValid, reset_in_flight-IsValid,
}

-- One statement of the queue, with its arguments and the clock that it reads.
pub data Op : Type 0 where
  enqueue : Seconds → Text → List Text → Op
  claim_ready : Text → Seconds → Op
  claim_update : ℕ → Op
  mark_done : ℕ → Op
  reschedule : ℕ → ℕ → Seconds → Op
  mark_failed : ℕ → Text → Op
  reset_in_flight : Op

unfoldable pub apply : Op → Queue.Db → Queue.Db
apply (enqueue now cdn urls) db = (Queue.enqueue now cdn urls db).1
apply (claim_ready cdn now) db = (Queue.claim_ready cdn now db).1
apply (claim_update i) db = (Queue.claim_update i db).1
apply (mark_done i) db = Queue.mark_done i db
apply (reschedule i n at) db = Queue.reschedule i n at db
apply (mark_failed i message) db = Queue.mark_failed i message db
apply reset_in_flight db = (Queue.reset_in_flight db).1

unfoldable pub run : List Op → Queue.Db → Queue.Db
unfolding apply
run [] db = db
run (op ∷ ops) db = run ops (apply op db)

-- The batch that a row carries, and those that a table holds.
abbrev pub batch : Queue.Row → ℕ × Text × List Text
batch r = (r.id, r.cdn_name, r.urls)

abbrev pub batches : List Queue.Row → List (ℕ × Text × List Text)
batches [] = []
batches (r ∷ rs) = batch r ∷ batches rs

-- The batches that a run of statements enqueues, numbered after `last_id`.
abbrev pub enqueued : ℕ → List Op → List (ℕ × Text × List Text)
enqueued last_id [] = []
enqueued last_id (enqueue now cdn urls ∷ ops) =
    (suc last_id, cdn, urls) ∷ enqueued (suc last_id) ops
enqueued last_id (_ ∷ ops) = enqueued last_id ops

batches-update :
    (where_ : Queue.Row → Bool) (set_ : Queue.Row → Queue.Row) (rs : List Queue.Row)
    → ((r : Queue.Row) → batch (set_ r) ≡ batch r)
    → batches (Queue.update where_ set_ rs) ≡ batches rs
unfolding Queue.update
batches-update where_ set_ [] keeps = refl
batches-update where_ set_ (r ∷ rs) keeps =
    ground (arith, keeps r, batches-update where_ set_ rs keeps)

batches-append : (rs ss : List Queue.Row) → batches (rs ++ ss) ≡ batches rs ++ batches ss
batches-append [] ss = refl
batches-append (r ∷ rs) ss = ap (λ l. batch r ∷ l) (batches-append rs ss)

-- What a statement other than `enqueue` leaves as it is.
record KeepsWork (db db' : Queue.Db) : Type 0 where
  same_batches : batches db'.rows ≡ batches db.rows
  same_last_id : db'.last_id ≡ db.last_id

claim_update-KeepsWork : (i : ℕ) (db : Queue.Db) → KeepsWork db (Queue.claim_update i db).1
unfolding Queue.claim_update
claim_update-KeepsWork i db = record {
  same_batches =
      batches-update (Queue.is_pending_id i) (Queue.to_status Queue.in_flight) db.rows (λ r. refl);
  same_last_id = refl;
}

claim_row-KeepsWork : (o : Option Queue.Row) (db : Queue.Db) → KeepsWork db (Queue.claim_row o db).1
unfolding Queue.claim_row
claim_row-KeepsWork none db = record { same_batches = refl; same_last_id = refl }
claim_row-KeepsWork (some r) db = claim_update-KeepsWork r.id db

batches-apply :
    (op : Op) (ops : List Op) (db : Queue.Db)
    → batches (apply op db).rows ++ enqueued (apply op db).last_id ops
      ≡ batches db.rows ++ enqueued db.last_id (op ∷ ops)
unfolding apply Queue.enqueue Queue.claim_ready Queue.mark_done Queue.reschedule Queue.mark_failed
    Queue.reset_in_flight
batches-apply (enqueue now cdn urls) ops db =
    rw (batches-append db.rows) (append_assoc (batches db.rows) _ _)
batches-apply (claim_ready cdn now) ops db =
    let k = claim_row-KeepsWork (Queue.select_ready cdn now db.rows) db in
    rw (k.same_batches, k.same_last_id)
batches-apply (claim_update i) ops db =
    let k = claim_update-KeepsWork i db in rw (k.same_batches, k.same_last_id)
batches-apply (mark_done i) ops db =
    rw (batches-update (Queue.has_id i) (Queue.to_status Queue.done) db.rows (λ r. refl))
batches-apply (reschedule i n at) ops db =
    rw (batches-update (Queue.has_id i) (Queue.rescheduled n at) db.rows (λ r. refl))
batches-apply (mark_failed i message) ops db =
    rw (batches-update (Queue.has_id i) (Queue.failed_with message) db.rows (λ r. refl))
batches-apply reset_in_flight ops db = rw (
    batches-update (Queue.has_status Queue.in_flight) (Queue.to_status Queue.pending) db.rows
      (λ r. refl))

-- Whatever statements run, in any order and with any arguments, the table holds the batches that it
-- held and behind them each batch that was enqueued, under its own id: no claim, retry, failure or
-- recovery drops, duplicates or alters one.
pub batches-run :
    (ops : List Op) (db : Queue.Db)
    → batches (run ops db).rows ≡ batches db.rows ++ enqueued db.last_id ops
unfolding run
batches-run [] db = sym (append-nil (batches db.rows))
batches-run (op ∷ ops) db = batches-run ops (apply op db) ∙ batches-apply op ops db

last_id-apply : (op : Op) (db : Queue.Db) → db.last_id ≤ (apply op db).last_id
unfolding apply Queue.enqueue Queue.claim_ready Queue.claim_update Queue.mark_done Queue.reschedule
    Queue.mark_failed Queue.reset_in_flight
last_id-apply (enqueue now cdn urls) db = omega arith
last_id-apply (claim_ready cdn now) db =
    rw (claim_row-KeepsWork (Queue.select_ready cdn now db.rows) db).same_last_id (omega arith)
last_id-apply (claim_update i) db = omega arith
last_id-apply (mark_done i) db = omega arith
last_id-apply (reschedule i n at) db = omega arith
last_id-apply (mark_failed i message) db = omega arith
last_id-apply reset_in_flight db = omega arith

-- No statement takes an id back.
pub last_id-run : (ops : List Op) (db : Queue.Db) → db.last_id ≤ (run ops db).last_id
unfolding run
last_id-run [] db = omega arith
last_id-run (op ∷ ops) db =
    let here = last_id-apply op db in let later = last_id-run ops (apply op db) in omega arith

apply-IsValid : (op : Op) (db : Queue.Db) → IsValid db → IsValid (apply op db)
unfolding apply
apply-IsValid (enqueue now cdn urls) db h = enqueue-IsValid db h now cdn urls
apply-IsValid (claim_ready cdn now) db h = claim_ready-IsValid cdn now db h
apply-IsValid (claim_update i) db h = claim_update-IsValid db h i
apply-IsValid (mark_done i) db h = mark_done-IsValid db h i
apply-IsValid (reschedule i n at) db h = reschedule-IsValid db h i n at
apply-IsValid (mark_failed i message) db h = mark_failed-IsValid db h i message
apply-IsValid reset_in_flight db h = reset_in_flight-IsValid db h

-- Whatever statements run on a valid table, its ids stay unique, in order and at most the last id
-- that was given.
run-IsValid : (ops : List Op) (db : Queue.Db) → IsValid db → IsValid (run ops db)
unfolding run
run-IsValid [] db h = h
run-IsValid (op ∷ ops) db h = run-IsValid ops (apply op db) (apply-IsValid op db h)
