-- ===== src/Queue/Column/Refines.antt =====
-- The queue on text columns and the queue on lists of URLs.
use mirror_mirage.Prelude.{
  ℕ, suc, ◌≡◌, refl, sym, ap, subst, ◌∙◌, Bool, Option, none, some, List, [], ◌∷◌, ◌++◌, arith, inl,
  inr, In, All, map, count, ◌==◌, Bool-cases,
}
use mirror_mirage.Text.{Text}
use mirror_mirage.Config.{Seconds}
use mirror_mirage.Outcome.{value}
use mirror_mirage.Json.{dumps}
use mirror_mirage.Json.Escapes.{IsText}
use mirror_mirage.Json.RoundTrip.{loads-dumps}
use mirror_mirage.Queue
use mirror_mirage.Queue.{Row, Db, Job, empty, in_flight, pending, done}
use mirror_mirage.Queue.Work
use mirror_mirage.Queue.Work.{Op, batches, enqueued, batches-run}
use mirror_mirage.Queue.Claim.{select_ready-Selected}
use mirror_mirage.Queue.Column
use mirror_mirage.Queue.Column.{Line, File}

-- A row with its URLs written as JSON.
abbrev pub line_of : Row → Line
line_of r = record {
  id = r.id;
  cdn_name = r.cdn_name;
  urls_json = dumps r.urls;
  attempts = r.attempts;
  next_attempt_at = r.next_attempt_at;
  created_at = r.created_at;
  status = r.status;
  message = r.message;
}

abbrev pub file_of : Db → File
file_of db = record { lines = map line_of db.rows; last_id = db.last_id }

module _ (where_ : Row → Bool) (set_ : Row → Row) (test : Line → Bool) (change : Line → Line)
    (same_test : (r : Row) → test (line_of r) ≡ where_ r)
    (same_change : (r : Row) → change (line_of r) ≡ line_of (set_ r)) where
  update-lines :
      (rs : List Row)
      → Column.update test change (map line_of rs) ≡ map line_of (Queue.update where_ set_ rs)
  unfolding Column.update Queue.update
  update-lines [] = refl
  update-lines (r ∷ rs) = elim (Bool-cases (where_ r)) [
    | inl e ↦ rw (same_test r, e, same_change r, update-lines rs)
    | inr e ↦ rw (same_test r, e, update-lines rs)
  ]

  updated-file :
      (db : Db)
      → file_of (record db { rows = Queue.update where_ set_ db.rows })
        ≡ Column.updated test change (file_of db)
  updated-file db = rw (update-lines db.rows)

count-lines :
    (i : ℕ) (rs : List Row)
    → count (Column.is_pending_id i) (map line_of rs) ≡ count (Queue.is_pending_id i) rs
count-lines i [] = refl
count-lines i (r ∷ rs) = rw (count-lines i rs)

append-lines : (rs ss : List Row) → map line_of (rs ++ ss) ≡ map line_of rs ++ map line_of ss
append-lines [] ss = refl
append-lines (r ∷ rs) ss = ap (λ l. line_of r ∷ l) (append-lines rs ss)

abbrev line_option : Option Row → Option Line
line_option none = none
line_option (some r) = some (line_of r)

earlier-lines :
    (r : Row) (o : Option Row)
    → Column.earlier (line_of r) (line_option o) ≡ line_of (Queue.earlier r o)
earlier-lines r none = refl
earlier-lines r (some s) = ground arith

select-lines :
    (cdn : Text) (now : Seconds) (rs : List Row)
    → Column.select_ready cdn now (map line_of rs) ≡ line_option (Queue.select_ready cdn now rs)
unfolding Column.select_ready Queue.select_ready Column.is_ready Queue.is_ready
select-lines cdn now [] = refl
select-lines cdn now (r ∷ rs) = elim (Bool-cases (Queue.is_ready cdn now r)) [
  | inl e ↦ rw (e, select-lines cdn now rs, earlier-lines r (Queue.select_ready cdn now rs))
  | inr e ↦ rw (e, select-lines cdn now rs)
]

claimed-file :
    (o : Option Row) (db : Db)
    → file_of (Queue.claim_row o db).1 ≡ (Column.claim_line (line_option o) (file_of db)).1
unfolding Queue.claim_row Queue.claim_update Column.claim_line
claimed-file none db = refl
claimed-file (some r) db =
    updated-file (Queue.is_pending_id r.id) (Queue.to_status in_flight) (Column.is_pending_id r.id)
      (Column.to_status in_flight) (λ x. refl) (λ x. refl) db

claimed-job :
    (r : Row) (db : Db)
    → All IsText r.urls
    → (Column.claim_line (some (line_of r)) (file_of db)).0 ≡ value (Queue.claim_row (some r) db).0
unfolding Queue.claim_row Queue.claim_update Column.claim_line
claimed-job r db texts = elim (Bool-cases (count (Queue.is_pending_id r.id) db.rows == 0)) [
  | inl e ↦ rw (count-lines r.id db.rows, e)
  | inr e ↦ rw (count-lines r.id db.rows, e, loads-dumps r.urls texts)
]

file_of-apply : (op : Op) (db : Db) → file_of (Work.apply op db) ≡ Column.apply op (file_of db)
unfolding Work.apply Column.apply Queue.enqueue Column.enqueue Queue.claim_ready Column.claim_ready
    Queue.claim_update Queue.mark_done Queue.reschedule Queue.mark_failed Queue.reset_in_flight
file_of-apply (Work.enqueue now cdn urls) db = rw (append-lines db.rows)
file_of-apply (Work.claim_ready cdn now) db =
    claimed-file (Queue.select_ready cdn now db.rows) db
    ∙ ap (λ o. (Column.claim_line o (file_of db)).1) (sym (select-lines cdn now db.rows))
file_of-apply (Work.claim_update i) db =
    updated-file (Queue.is_pending_id i) (Queue.to_status in_flight) (Column.is_pending_id i)
      (Column.to_status in_flight) (λ x. refl) (λ x. refl) db
file_of-apply (Work.mark_done i) db =
    updated-file (Queue.has_id i) (Queue.to_status done) (Column.has_id i) (Column.to_status done)
      (λ x. refl) (λ x. refl) db
file_of-apply (Work.reschedule i n at) db =
    updated-file (Queue.has_id i) (Queue.rescheduled n at) (Column.has_id i)
      (Column.rescheduled n at) (λ x. refl) (λ x. refl) db
file_of-apply (Work.mark_failed i message) db =
    updated-file (Queue.has_id i) (Queue.failed_with message) (Column.has_id i)
      (Column.failed_with message) (λ x. refl) (λ x. refl) db
file_of-apply Work.reset_in_flight db =
    updated-file (Queue.has_status in_flight) (Queue.to_status pending)
      (Column.has_status in_flight) (Column.to_status pending) (λ x. refl) (λ x. refl) db

file_of-run : (ops : List Op) (db : Db) → file_of (Work.run ops db) ≡ Column.run ops (file_of db)
unfolding Work.run Column.run
file_of-run [] db = refl
file_of-run (op ∷ ops) db =
    file_of-run ops (Work.apply op db) ∙ ap (Column.run ops) (file_of-apply op db)

-- What a run enqueues holds text only, without high surrogates.
abbrev pub AllTexts : List Op → Type 0
AllTexts [] = Unit
AllTexts (Work.enqueue now cdn urls ∷ ops) = All IsText urls × AllTexts ops
AllTexts (op ∷ ops) = AllTexts ops

enqueued-IsText :
    (n : ℕ) (ops : List Op) (b : ℕ × Text × List Text)
    → AllTexts ops
    → In b (enqueued n ops)
    → All IsText b.2
enqueued-IsText n [] b h m = absurd m
enqueued-IsText n (Work.enqueue now cdn urls ∷ ops) b h (inl e) = rw e h.0
enqueued-IsText n (Work.enqueue now cdn urls ∷ ops) b h (inr m) =
    enqueued-IsText (suc n) ops b h.1 m
enqueued-IsText n (Work.claim_ready cdn now ∷ ops) b h m = enqueued-IsText n ops b h m
enqueued-IsText n (Work.claim_update i ∷ ops) b h m = enqueued-IsText n ops b h m
enqueued-IsText n (Work.mark_done i ∷ ops) b h m = enqueued-IsText n ops b h m
enqueued-IsText n (Work.reschedule i k at ∷ ops) b h m = enqueued-IsText n ops b h m
enqueued-IsText n (Work.mark_failed i message ∷ ops) b h m = enqueued-IsText n ops b h m
enqueued-IsText n (Work.reset_in_flight ∷ ops) b h m = enqueued-IsText n ops b h m

In-batches : (r : Row) (rs : List Row) → In r rs → In (Work.batch r) (batches rs)
In-batches r [] m = absurd m
In-batches r (s ∷ rs) (inl e) = inl (ap Work.batch e)
In-batches r (s ∷ rs) (inr m) = inr (In-batches r rs m)

row-IsText :
    (ops : List Op) (r : Row) → AllTexts ops → In r (Work.run ops empty).rows → All IsText r.urls
row-IsText ops r h m =
    enqueued-IsText 0 ops (Work.batch r) h
      (subst (λ l. In (Work.batch r) l) (batches-run ops empty) (In-batches r _ m))

claim_selected-Refines :
    (o : Option Row) (db : Db)
    → ((r : Row) → o ≡ some r → All IsText r.urls)
    → Column.claim_line (line_option o) (file_of db)
      ≡ (value (Queue.claim_row o db).0, file_of (Queue.claim_row o db).1)
unfolding Column.claim_line Queue.claim_row
claim_selected-Refines none db texts = refl
claim_selected-Refines (some r) db texts =
    ap (λ a. (a, (Column.claim_line (some (line_of r)) (file_of db)).1))
      (claimed-job r db (texts r refl))
    ∙ ap (λ (b : File). (value (Queue.claim_row (some r) db).0, b)) (sym (claimed-file (some r) db))

-- On a new database, whatever statements ran on the file, in any order and with any arguments, if
-- the URLs that they enqueued are strings without high surrogates: a claim of a ready job on the
-- text of `urls_json` gives the job that it gives on the lists of URLs themselves, its `json.loads`
-- never raises, and it leaves the table whose column is the `json.dumps` of those lists.
pub claim_ready-Refines :
    (ops : List Op) (cdn : Text) (now : Seconds)
    → AllTexts ops
    → Column.claim_ready cdn now (Column.run ops (file_of empty)) ≡ (
      value (Queue.claim_ready cdn now (Work.run ops empty)).0,
      file_of (Queue.claim_ready cdn now (Work.run ops empty)).1,
    )
unfolding Column.claim_ready Queue.claim_ready
claim_ready-Refines ops cdn now h =
    let db = Work.run ops empty in
    ap (Column.claim_ready cdn now) (sym (file_of-run ops empty))
    ∙ ap (λ o. Column.claim_line o (file_of db)) (select-lines cdn now db.rows)
    ∙ claim_selected-Refines (Queue.select_ready cdn now db.rows) db
        (λ r e. row-IsText ops r h (select_ready-Selected cdn now db.rows r e).stored)
