-- ===== src/Queue/Enqueue.antt =====
-- `enqueue`, seen through the ids.
use mirror_mirage.Prelude.{ℕ, suc, ◌≡◌, none, some, List, [], ◌∷◌, arith, ◌==◌, if◌then◌else◌}
use mirror_mirage.Text.{Text}
use mirror_mirage.Config.{Seconds}
use mirror_mirage.Queue.{Row, Db, pending, enqueue}
use mirror_mirage.Queue.Rows.{find_row, find_row-append}
use mirror_mirage.Queue.Validity.{IsValid, find_row-fresh}

-- A job that no worker has tried.
abbrev pub new_row : ℕ → Seconds → Text → List Text → Row
new_row job_id now cdn_name urls = record {
  id = job_id;
  cdn_name = cdn_name;
  urls = urls;
  attempts = 0;
  next_attempt_at = now;
  created_at = now;
  status = pending;
  message = none;
}

-- On a valid table, `enqueue` returns an id at which the table then holds the new pending job, due
-- at once, and changes no other row.
pub find_row-enqueue :
    (now : Seconds) (cdn : Text) (urls : List Text) (db : Db) (j : ℕ)
    → IsValid db
    → find_row j (enqueue now cdn urls db).1.rows ≡ (
        if (enqueue now cdn urls db).0 == j
        then some (new_row (enqueue now cdn urls db).0 now cdn urls)
        else find_row j db.rows)
unfolding enqueue find_row
find_row-enqueue now cdn urls db j valid =
    rw (find_row-append j db.rows (new_row (suc db.last_id) now cdn urls ∷ []))
      (ground (arith, find_row-fresh db valid))
