-- ===== src/Queue/Column.antt =====
-- `PersistentQueue` of src/mirror_mirage/queue.py on the table as SQLite has it: the column
-- `urls_json` holds text, written by `json.dumps` and read by `json.loads`.
pub mod Refines
use mirror_mirage.Prelude.{
  ℕ, suc, Bool, true, false, Option, none, some, List, [], ◌∷◌, ◌++◌, ltb, leb, ◌==◌, count,
  if◌then◌else◌,
}
use mirror_mirage.Text.{Text, text_eq}
use mirror_mirage.Config.{Seconds}
use mirror_mirage.Outcome.{Outcome, value, raised, value_error}
use mirror_mirage.Json.{dumps, loads}
use mirror_mirage.Queue.{Status, pending, in_flight, done, failed, status_eq, Job}
use mirror_mirage.Queue.Work

-- A row of `jobs`.
pub record Line : Type 0 where
  pub id : ℕ
  pub cdn_name : Text
  pub urls_json : Text
  pub attempts : ℕ
  pub next_attempt_at : Seconds
  pub created_at : Seconds
  pub status : Status
  pub message : Option Text

-- The table, and the highest id that AUTOINCREMENT has given.
pub record File : Type 0 where
  pub lines : List Line
  pub last_id : ℕ

-- `UPDATE jobs SET … WHERE …`
unfoldable pub update : (Line → Bool) → (Line → Line) → List Line → List Line
update where_ set_ [] = []
update where_ set_ (l ∷ ls) = (if where_ l then set_ l else l) ∷ update where_ set_ ls

-- `enqueue(cdn_name, urls)` at the time `now`
unfoldable pub enqueue : Seconds → Text → List Text → File → ℕ × File
enqueue now cdn_name urls file =
    let line : Line = record {
      id = suc file.last_id;
      cdn_name = cdn_name;
      urls_json = dumps urls;
      attempts = 0;
      next_attempt_at = now;
      created_at = now;
      status = pending;
      message = none;
    } in
    (suc file.last_id, record { lines = file.lines ++ line ∷ []; last_id = suc file.last_id })

-- The SELECT of `claim_ready`.
unfoldable pub is_ready : Text → Seconds → Line → Bool
is_ready cdn_name now l =
    if text_eq l.cdn_name cdn_name
    then (if status_eq l.status pending then leb l.next_attempt_at now else false)
    else false

abbrev pub earlier : Line → Option Line → Line
earlier l none = l
earlier l (some m) = if ltb m.id l.id then m else l

unfoldable pub select_ready : Text → Seconds → List Line → Option Line
select_ready cdn_name now [] = none
select_ready cdn_name now (l ∷ ls) =
    let rest = select_ready cdn_name now ls in
    if is_ready cdn_name now l then some (earlier l rest) else rest

abbrev pub is_pending_id : ℕ → Line → Bool
is_pending_id job_id l = if l.id == job_id then status_eq l.status pending else false

abbrev pub to_status : Status → Line → Line
to_status s l = record l { status = s }

-- `Job(…, urls=json.loads(urls_json), …)`; text that is not JSON raises a ValueError.
abbrev pub job_with : Line → Option (List Text) → Outcome (Option Job)
job_with l none = raised value_error
job_with l (some urls) = value (
    some (record {
      id = l.id;
      cdn_name = l.cdn_name;
      urls = urls;
      attempts = l.attempts;
      next_attempt_at = l.next_attempt_at;
      created_at = l.created_at;
      status = in_flight;
    }))

-- What `claim_ready` does with the row that its SELECT found: the UPDATE comes first.
unfoldable pub claim_line : Option Line → File → Outcome (Option Job) × File
claim_line none file = (value none, file)
claim_line (some l) file = (
  if count (is_pending_id l.id) file.lines == 0 then value none else job_with l (loads l.urls_json),
  record file { lines = update (is_pending_id l.id) (to_status in_flight) file.lines },
)

-- `claim_ready(cdn_name)` at the time `now`, with no other task between the two statements
unfoldable pub claim_ready : Text → Seconds → File → Outcome (Option Job) × File
claim_ready cdn_name now file = claim_line (select_ready cdn_name now file.lines) file

abbrev pub has_id : ℕ → Line → Bool
has_id job_id l = l.id == job_id

abbrev pub has_status : Status → Line → Bool
has_status s l = status_eq l.status s

abbrev pub rescheduled : ℕ → Seconds → Line → Line
rescheduled attempts next_attempt_at l = record l {
  status = pending;
  attempts = attempts;
  next_attempt_at = next_attempt_at;
}

abbrev pub failed_with : Text → Line → Line
failed_with message l = record l { status = failed; message = some message }

-- An UPDATE of the whole table.
abbrev pub updated : (Line → Bool) → (Line → Line) → File → File
updated where_ set_ file = record file { lines = update where_ set_ file.lines }

-- The statements, on the file.
unfoldable pub apply : Work.Op → File → File
apply (Work.enqueue now cdn urls) file = (enqueue now cdn urls file).1
apply (Work.claim_ready cdn now) file = (claim_ready cdn now file).1
apply (Work.claim_update i) file = updated (is_pending_id i) (to_status in_flight) file
apply (Work.mark_done i) file = updated (has_id i) (to_status done) file
apply (Work.reschedule i n at) file = updated (has_id i) (rescheduled n at) file
apply (Work.mark_failed i message) file = updated (has_id i) (failed_with message) file
apply Work.reset_in_flight file = updated (has_status in_flight) (to_status pending) file

unfoldable pub run : List Work.Op → File → File
run [] file = file
run (op ∷ ops) file = run ops (apply op file)
