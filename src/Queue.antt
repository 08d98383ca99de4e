-- ===== src/Queue.antt =====
-- `PersistentQueue` of src/mirror_mirage/queue.py: the `jobs` table and its statements. The column
-- `urls_json` holds the list that it encodes.
pub mod Rows
pub mod Validity
pub mod Enqueue
pub mod Claim
pub mod Recovery
pub mod Work
pub mod Race
pub mod Column
use mirror_mirage.Prelude.{
  ℕ, suc, ◌+◌, Bool, true, false, Option, none, some, List, [], ◌∷◌, ◌++◌, ltb, leb, ◌==◌, count,
  map, if◌then◌else◌,
}
use mirror_mirage.Text.{Text, text_eq}
use mirror_mirage.Config.{Seconds}

-- The column `status`.
pub data Status : Type 0 where
  pending in_flight done failed : Status

unfoldable pub status_eq : Status → Status → Bool
status_eq pending pending = true
status_eq in_flight in_flight = true
status_eq done done = true
status_eq failed failed = true
status_eq _ _ = false

pub record Row : Type 0 where
  pub id : ℕ
  pub cdn_name : Text
  pub urls : List Text
  pub attempts : ℕ
  pub next_attempt_at : Seconds
  pub created_at : Seconds
  pub status : Status
  pub message : Option Text

-- The table, and the highest id that AUTOINCREMENT has given.
pub record Db : Type 0 where
  pub rows : List Row
  pub last_id : ℕ

pub record Job : Type 0 where
  pub id : ℕ
  pub cdn_name : Text
  pub urls : List Text
  pub attempts : ℕ
  pub next_attempt_at : Seconds
  pub created_at : Seconds
  pub status : Status

-- A database that `open` has just created.
abbrev pub empty : Db
empty = record { rows = []; last_id = 0 }

-- `UPDATE jobs SET … WHERE …`; the cursor's `rowcount` is `count where_ rows`.
unfoldable pub update : (Row → Bool) → (Row → Row) → List Row → List Row
update where_ set_ [] = []
update where_ set_ (r ∷ rs) = (if where_ r then set_ r else r) ∷ update where_ set_ rs

abbrev pub has_id : ℕ → Row → Bool
has_id job_id r = r.id == job_id

abbrev pub has_status : Status → Row → Bool
has_status s r = status_eq r.status s

-- `enqueue(cdn_name, urls)` at the time `now`
unfoldable pub enqueue : Seconds → Text → List Text → Db → ℕ × Db
enqueue now cdn_name urls db =
    let row : Row = record {
      id = suc db.last_id;
      cdn_name = cdn_name;
      urls = urls;
      attempts = 0;
      next_attempt_at = now;
      created_at = now;
      status = pending;
      message = none;
    } in
    (suc db.last_id, record { rows = db.rows ++ row ∷ []; last_id = suc db.last_id })

-- The WHERE clause of the SELECT in `claim_ready`.
unfoldable pub is_ready : Text → Seconds → Row → Bool
unfolding status_eq
is_ready cdn_name now r =
    if text_eq r.cdn_name cdn_name
    then (if status_eq r.status pending then leb r.next_attempt_at now else false)
    else false

-- `ORDER BY id ASC LIMIT 1`
abbrev pub earlier : Row → Option Row → Row
earlier r none = r
earlier r (some s) = if ltb s.id r.id then s else r

unfoldable pub select_ready : Text → Seconds → List Row → Option Row
select_ready cdn_name now [] = none
select_ready cdn_name now (r ∷ rs) =
    let rest = select_ready cdn_name now rs in
    if is_ready cdn_name now r then some (earlier r rest) else rest

abbrev pub is_pending_id : ℕ → Row → Bool
is_pending_id job_id r = if r.id == job_id then status_eq r.status pending else false

abbrev pub to_status : Status → Row → Row
to_status s r = record r { status = s }

-- The conditional UPDATE of `claim_ready`, with its `rowcount`.
unfoldable pub claim_update : ℕ → Db → ℕ × Db
claim_update job_id db = (
  count (is_pending_id job_id) db.rows,
  record db { rows = update (is_pending_id job_id) (to_status in_flight) db.rows },
)

abbrev pub job_of : Row → Job
job_of r = record {
  id = r.id;
  cdn_name = r.cdn_name;
  urls = r.urls;
  attempts = r.attempts;
  next_attempt_at = r.next_attempt_at;
  created_at = r.created_at;
  status = in_flight;
}

-- What `claim_ready` does with the row that its SELECT found.
unfoldable pub claim_row : Option Row → Db → Option Job × Db
unfolding claim_update
claim_row none db = (none, db)
claim_row (some r) db =
    let (rowcount, db') = claim_update r.id db in
    (if rowcount == 0 then none else some (job_of r), db')

-- `claim_ready(cdn_name)` at the time `now`, with no other task between the two statements
unfoldable pub claim_ready : Text → Seconds → Db → Option Job × Db
claim_ready cdn_name now db = claim_row (select_ready cdn_name now db.rows) db

-- `mark_done(job_id)`
unfoldable pub mark_done : ℕ → Db → Db
mark_done job_id db = record db { rows = update (has_id job_id) (to_status done) db.rows }

-- `reschedule(job_id, attempts=, next_attempt_at=)`
abbrev pub rescheduled : ℕ → Seconds → Row → Row
rescheduled attempts next_attempt_at r = record r {
  status = pending;
  attempts = attempts;
  next_attempt_at = next_attempt_at;
}

unfoldable pub reschedule : ℕ → ℕ → Seconds → Db → Db
reschedule job_id attempts next_attempt_at db = record db {
  rows = update (has_id job_id) (rescheduled attempts next_attempt_at) db.rows;
}

-- `mark_failed(job_id, message)`
abbrev pub failed_with : Text → Row → Row
failed_with message r = record r { status = failed; message = some message }

unfoldable pub mark_failed : ℕ → Text → Db → Db
mark_failed job_id message db = record db {
  rows = update (has_id job_id) (failed_with message) db.rows;
}

-- `reset_in_flight()`
unfoldable pub reset_in_flight : Db → ℕ × Db
reset_in_flight db = (
  count (has_status in_flight) db.rows,
  record db { rows = update (has_status in_flight) (to_status pending) db.rows },
)

-- `stats()`: the count of a status; the dictionary leaves out the statuses with count 0.
unfoldable pub stats : Db → Status → ℕ
stats db s = count (has_status s) db.rows
