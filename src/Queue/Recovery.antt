-- ===== src/Queue/Recovery.antt =====
-- `reset_in_flight` and `stats`.
use mirror_mirage.Prelude.{◌+◌, ◌≡◌, refl, List, [], ◌∷◌, arith, length, count, map, if◌then◌else◌}
use mirror_mirage.Queue.{
  Status, pending, in_flight, done, failed, status_eq, Row, Db, update, has_status, to_status,
  reset_in_flight, stats,
}

abbrev pub moved : Status → Status
moved in_flight = pending
moved s = s

-- A row with only its status moved.
abbrev pub recovered : Row → Row
recovered r = record r { status = moved r.status }

row-reset : (r : Row) → (if has_status in_flight r then to_status pending r else r) ≡ recovered r
unfolding status_eq
row-reset r = by_status r.status refl
  where
    by_status :
        (s : Status)
        → r.status ≡ s
        → (if status_eq r.status in_flight then to_status pending r else r) ≡ recovered r
    by_status pending e = rw e
    by_status in_flight e = rw e
    by_status done e = rw e
    by_status failed e = rw e

rows-reset :
    (rs : List Row) → update (has_status in_flight) (to_status pending) rs ≡ map recovered rs
unfolding update
rows-reset [] = refl
rows-reset (r ∷ rs) = rw (row-reset r, rows-reset rs)

-- The counts of the table after the UPDATE, from those before.
count-reset :
    (rs : List Row)
    → (count (has_status in_flight) (update (has_status in_flight) (to_status pending) rs) ≡ 0)
      × (count (has_status pending) (update (has_status in_flight) (to_status pending) rs)
          ≡ count (has_status pending) rs + count (has_status in_flight) rs)
      × (count (has_status done) (update (has_status in_flight) (to_status pending) rs)
          ≡ count (has_status done) rs)
      × (count (has_status failed) (update (has_status in_flight) (to_status pending) rs)
          ≡ count (has_status failed) rs)
unfolding update status_eq
count-reset [] = ground arith
count-reset (r ∷ rs) = ground (arith, count-reset rs)

-- Startup recovery moves each job in flight back to pending and changes nothing else: the rows stay
-- in their order, with all their other columns, no other row's status moves, and the last id stays.
-- The number that it returns is how many jobs more are pending; none is left in flight, and the
-- numbers of done and of failed jobs do not change.
pub stats-reset_in_flight :
    (db : Db)
    → ((reset_in_flight db).1.rows ≡ map recovered db.rows)
      × ((reset_in_flight db).1.last_id ≡ db.last_id)
      × (stats (reset_in_flight db).1 pending ≡ stats db pending + (reset_in_flight db).0)
      × (stats (reset_in_flight db).1 in_flight ≡ 0)
      × (stats (reset_in_flight db).1 done ≡ stats db done)
      × (stats (reset_in_flight db).1 failed ≡ stats db failed)
unfolding reset_in_flight stats
stats-reset_in_flight db =
    let (a, b, c, d) = count-reset db.rows in (rows-reset db.rows, refl, b, a, c, d)

count_all :
    (rs : List Row)
    → count (has_status pending) rs
        + count (has_status in_flight) rs
        + count (has_status done) rs
        + count (has_status failed) rs
      ≡ length rs
unfolding status_eq
count_all [] = omega arith
count_all (r ∷ rs) = ground (arith, count_all rs)

-- Every job is counted under exactly one status.
stats_sum :
    (db : Db)
    → stats db pending + stats db in_flight + stats db done + stats db failed ≡ length db.rows
unfolding stats
stats_sum db = count_all db.rows
