-- ===== src/Queue/Claim.antt =====
-- `claim_ready` with no other task between its two statements.
use mirror_mirage.Prelude.{
  ℕ, ◌≡◌, refl, sym, ap, ◌∙◌, subst, ◌≤◌, ◌<◌, ◌↔◌, Bool, true, false, Option, none, some, List, [],
  ◌∷◌, arith, In, inl, inr, count, ltb, ◌==◌, ==_iff, if◌then◌else◌, Bool-cases, Option-cases,
  some_inj, none-ne-some,
}
use mirror_mirage.Text.{Text, text_eq_iff}
use mirror_mirage.Config.{Seconds}
use mirror_mirage.Queue.{
  Status, pending, in_flight, status_eq, Row, Db, Job, is_ready, select_ready, is_pending_id,
  to_status, claim_update, job_of, claim_row, claim_ready,
}
use mirror_mirage.Queue.Rows.{find_row, find_row-update, find_row_id, updated}
use mirror_mirage.Queue.Validity.{IsValid, find_row_self}

-- A pending job of the CDN that is due.
pub record IsReady (cdn : Text) (now : Seconds) (r : Row) : Type 0 where
  pub for_cdn : r.cdn_name ≡ cdn
  pub is_pending : r.status ≡ pending
  pub is_due : r.next_attempt_at ≤ now

pub status_eq_iff : (s t : Status) → (status_eq s t ≡ true) ↔ (s ≡ t)
unfolding status_eq
status_eq_iff s t = ground arith

pub is_ready_iff :
    (cdn : Text) (now : Seconds) (r : Row) → (is_ready cdn now r ≡ true) ↔ IsReady cdn now r
unfolding is_ready
is_ready_iff cdn now r = (
  λ h. ground (arith, text_eq_iff r.cdn_name cdn, status_eq_iff r.status pending),
  λ h. ground (arith, text_eq_iff r.cdn_name cdn, status_eq_iff r.status pending),
)

-- The row that the SELECT returns.
pub record Selected (cdn : Text) (now : Seconds) (rs : List Row) (r : Row) : Type 0 where
  pub stored : In r rs
  pub ready : IsReady cdn now r
  pub first : (s : Row) → In s rs → IsReady cdn now s → r.id ≤ s.id

select_none :
    (cdn : Text) (now : Seconds) (rs : List Row)
    → select_ready cdn now rs ≡ none
    → (s : Row) → In s rs
    → ¬ IsReady cdn now s
unfolding select_ready
select_none cdn now [] h s m k = absurd m
select_none cdn now (r ∷ rs) h s m k = elim (Bool-cases (is_ready cdn now r)) [
  | inl e ↦ cc (rw e at h)
  | inr e ↦ elim m [
    | inl same ↦ cc (e, (is_ready_iff cdn now r).1 (rw same at k))
    | inr n ↦ select_none cdn now rs (rw e at h) s n k
  ]
]

Selected-skip :
    (cdn : Text) (now : Seconds) (rs : List Row) (r q : Row)
    → is_ready cdn now q ≡ false
    → Selected cdn now rs r
    → Selected cdn now (q ∷ rs) r
Selected-skip cdn now rs r q e s = record {
  stored = inr s.stored;
  ready = s.ready;
  first = λ t m k. elim m [
    | inl same ↦ absurd (cc (e, (is_ready_iff cdn now q).1 (rw same at k)))
    | inr n ↦ s.first t n k
  ];
}

Selected-only :
    (cdn : Text) (now : Seconds) (rs : List Row) (r : Row)
    → is_ready cdn now r ≡ true
    → ((s : Row) → In s rs → ¬ IsReady cdn now s)
    → Selected cdn now (r ∷ rs) r
Selected-only cdn now rs r e no_other = record {
  stored = inl refl;
  ready = (is_ready_iff cdn now r).0 e;
  first = λ t m k. elim m [ inl same ↦ rw same (omega arith) | inr n ↦ absurd (no_other t n k) ];
}

Selected-earlier :
    (cdn : Text) (now : Seconds) (rs : List Row) (r s : Row)
    → is_ready cdn now r ≡ true
    → Selected cdn now rs s
    → Selected cdn now (r ∷ rs) (if ltb s.id r.id then s else r)
Selected-earlier cdn now rs r s e sel = elim (Bool-cases (ltb s.id r.id)) [
  | inl lt ↦ rw lt (record {
    stored = inr sel.stored;
    ready = sel.ready;
    first = λ t m k. elim m [ inl same ↦ rw same (ground arith) | inr n ↦ sel.first t n k ];
  })
  | inr ge ↦ rw ge (record {
    stored = inl refl;
    ready = (is_ready_iff cdn now r).0 e;
    first = λ t m k. elim m [
      | inl same ↦ rw same (omega arith)
      | inr n ↦ ground (arith, sel.first t n k)
    ];
  })
]

pub select_ready-Selected :
    (cdn : Text) (now : Seconds) (rs : List Row) (r : Row)
    → select_ready cdn now rs ≡ some r
    → Selected cdn now rs r
unfolding select_ready
select_ready-Selected cdn now [] r h = absurd (none-ne-some refl h)
select_ready-Selected cdn now (q ∷ rs) r h = elim (Bool-cases (is_ready cdn now q)) [
  | inl e ↦ elim (Option-cases (select_ready cdn now rs)) [
    | inl no_rest ↦
        subst (Selected cdn now (q ∷ rs)) (some_inj (rw (e, no_rest) at h))
          (Selected-only cdn now rs q e (select_none cdn now rs no_rest))
    | inr (s, rest) ↦
        subst (Selected cdn now (q ∷ rs)) (some_inj (rw (e, rest) at h))
          (Selected-earlier cdn now rs q s e (select_ready-Selected cdn now rs s rest))
  ]
  | inr e ↦ Selected-skip cdn now rs r q e (select_ready-Selected cdn now rs r (rw e at h))
]

-- What a successful claim has done: it took the ready row with the least id, returns its columns,
-- has moved that row to `in_flight` and has changed no other row.
pub record Claimed (cdn : Text) (now : Seconds) (db : Db) (job : Job) (db' : Db) : Type 0 where
  pub row : Row
  pub selected : Selected cdn now db.rows row
  pub columns : job ≡ job_of row
  pub seen : find_row row.id db.rows ≡ some row
  pub table :
      (j : ℕ)
      → find_row j db'.rows
        ≡ (if row.id == j then some (to_status in_flight row) else find_row j db.rows)

count_pos : (p : Row → Bool) (rs : List Row) (r : Row) → In r rs → p r ≡ true → 0 < count p rs
count_pos p [] r m h = absurd m
count_pos p (s ∷ rs) r (inl e) h = rw (rw e at h) (omega arith)
count_pos p (s ∷ rs) r (inr m) h = ground (arith, count_pos p rs r m h)

is_pending_id_self : (r : Row) → r.status ≡ pending → is_pending_id r.id r ≡ true
unfolding status_eq
is_pending_id_self r h = ground arith

updated_other :
    (i : ℕ) (j : ℕ) (rs : List Row)
    → (i == j) ≡ false
    → updated (is_pending_id i) (to_status in_flight) (find_row j rs) ≡ find_row j rs
updated_other i j rs ne = elim (Option-cases (find_row j rs)) [
  | inl e ↦ rw e
  | inr (s, e) ↦ rw e (ground (arith, find_row_id j rs e))
]

claim_update-table :
    (db : Db) (r : Row)
    → IsValid db
    → In r db.rows
    → r.status ≡ pending
    → (j : ℕ)
    → find_row j (claim_update r.id db).1.rows
      ≡ (if r.id == j then some (to_status in_flight r) else find_row j db.rows)
unfolding claim_update
claim_update-table db r valid m h j =
    rw (find_row-update (is_pending_id r.id) (to_status in_flight) j db.rows (λ s. refl))
      (elim (Bool-cases (r.id == j)) [
        | inl e ↦ rw (
          e,
          ← (==_iff r.id j).0 e,
          find_row_self db.last_id db.rows r valid m,
          is_pending_id_self r h,
        )
        | inr e ↦ rw e (updated_other r.id j db.rows e)
      ])

claim_row-some :
    (db : Db) (r : Row)
    → In r db.rows
    → r.status ≡ pending
    → claim_row (some r) db ≡ (some (job_of r), (claim_update r.id db).1)
unfolding claim_row
claim_row-some db r m h =
    ground (arith, count_pos (is_pending_id r.id) db.rows r m (is_pending_id_self r h))

claim_row-none : (db : Db) → claim_row none db ≡ (none, db)
unfolding claim_row
claim_row-none db = refl

module _ (cdn : Text) (now : Seconds) (db : Db) where
  claim_row-Claimed :
      (job : Job) (r : Row)
      → IsValid db
      → Selected cdn now db.rows r
      → (claim_row (some r) db).0 ≡ some job
      → Claimed cdn now db job (claim_row (some r) db).1
  claim_row-Claimed job r valid sel h =
      let ran = claim_row-some db r sel.stored sel.ready.is_pending in
      record {
        row = r;
        selected = sel;
        columns = some_inj (sym h ∙ ap (λ (x : Option Job × Db). x.0) ran);
        seen = find_row_self db.last_id db.rows r valid sel.stored;
        table = λ j. rw ran (claim_update-table db r valid sel.stored sel.ready.is_pending j);
      }

  -- A claim that returns a job, on a valid table, took the ready row of the CDN with the least id:
  -- it returns that row's columns, has moved the row to `in_flight`, and has changed no other row.
  pub claim_ready-Claimed :
      (job : Job)
      → IsValid db
      → (claim_ready cdn now db).0 ≡ some job
      → Claimed cdn now db job (claim_ready cdn now db).1
  unfolding claim_ready
  claim_ready-Claimed job valid h = elim (Option-cases (select_ready cdn now db.rows)) [
    | inl e ↦ absurd (none-ne-some refl (ap (λ o. o.0) (sym (claim_row-none db)) ∙ rw e at h))
    | inr (r, e) ↦
        rw e (claim_row-Claimed job r valid (select_ready-Selected cdn now db.rows r e) (rw e at h))
  ]

  pub claim_ready-misses :
      (claim_ready cdn now db).0 ≡ none
      → ((claim_ready cdn now db).1 ≡ db) × ((r : Row) → In r db.rows → ¬ IsReady cdn now r)
  unfolding claim_ready
  claim_ready-misses h = elim (Option-cases (select_ready cdn now db.rows)) [
    | inl e ↦ (rw (e, claim_row-none db), select_none cdn now db.rows e)
    | inr (r, e) ↦
        let sel = select_ready-Selected cdn now db.rows r e in
        absurd (
          none-ne-some (rw e at h)
            (ap (λ x. x.0) (claim_row-some db r sel.stored sel.ready.is_pending)))
  ]

  -- A claim that returns nothing changes nothing, and no row of the table is a ready job of the
  -- CDN.
  pub claim_ready-none :
      (r : Row)
      → In r db.rows
      → (claim_ready cdn now db).0 ≡ none
      → ((claim_ready cdn now db).1 ≡ db) × (¬ IsReady cdn now r)
  claim_ready-none r m h = let (same, no_ready) = claim_ready-misses h in (same, no_ready r m)
