-- ===== src/Jobs/Store/Opening/Twice.antt =====
-- What an opening of the database leaves for the next one.
use pi_mcp.Prelude.{
  ℕ, ◌≡◌, refl, sym, ap, subst, ◌∙◌, Bool, true, false, String, Option, none, some, List, [], ◌∷◌,
  ◌++◌, arith, if_cases, inl, inr, ◌⊎◌,
}
use pi_mcp.Jobs.Store.{
  Store, Legacy, absent, corrupt, jobs, LegacyFate, kept, upsert_jobs, migrate_legacy,
}
use pi_mcp.Jobs.Store.Opening.{
  Disk, Opening, schema_columns, has_column, create_table, columns_of, ensure_run_snapshot_column,
  left_of, import_legacy, after_ensure, open_store,
}

abbrev not_nil : Store → Bool
not_nil [] = false
not_nil (row ∷ st) = true

has_column-end : (c : String) (cs : List String) → has_column c (cs ++ (c ∷ [])) ≡ true
has_column-end c [] = ground arith
has_column-end c (d ∷ cs) = ground (arith, has_column-end c cs)

-- Rows are there, or the legacy file is not.
abbrev Imported : Store × LegacyFate → Legacy → Type 0
Imported (rows, fate) legacy = (not_nil rows ≡ true) ⊎ (left_of fate legacy ≡ absent)

migrate_legacy-Imported :
    (now : ℕ) (legacy : Legacy) (st : Store) → Imported (migrate_legacy true now legacy st) legacy
unfolding migrate_legacy upsert_jobs
migrate_legacy-Imported now absent [] = inr refl
migrate_legacy-Imported now corrupt [] = inr refl
migrate_legacy-Imported now (jobs []) [] = inr refl
migrate_legacy-Imported now (jobs (rec ∷ recs)) [] = inr refl
migrate_legacy-Imported now absent (row ∷ st) = inl refl
migrate_legacy-Imported now corrupt (row ∷ st) = inl refl
migrate_legacy-Imported now (jobs recs) (row ∷ st) = inl refl

again_by_rows :
    (db : Bool) (now : ℕ) (legacy : Legacy) (st : Store)
    → not_nil st ≡ true
    → migrate_legacy db now legacy st ≡ (st, kept)
unfolding migrate_legacy
again_by_rows db now legacy [] h = absurd (cc h)
again_by_rows db now absent (row ∷ st) h = refl
again_by_rows db now corrupt (row ∷ st) h = refl
again_by_rows db now (jobs recs) (row ∷ st) h = refl

again_by_legacy : (db : Bool) (now : ℕ) (st : Store) → migrate_legacy db now absent st ≡ (st, kept)
unfolding migrate_legacy
again_by_legacy db now [] = refl
again_by_legacy db now (row ∷ st) = refl

-- What import_legacy makes of an answer of migrate_legacy.
abbrev imported : Disk → Store × LegacyFate → Disk
imported d (rows, fate) = record d { rows = rows; legacy = left_of fate d.legacy }

-- An import whose transaction commits leaves nothing for a later one.
import_twice :
    (o later : Opening) (d : Disk)
    → o.commits ≡ true
    → import_legacy later (import_legacy o d) ≡ import_legacy o d
unfolding import_legacy
import_twice o later d commits = by_import (import_legacy o d) (
    subst (λ b. Imported (migrate_legacy b o.now d.legacy d.rows) d.legacy) (sym commits)
      (migrate_legacy-Imported o.now d.legacy d.rows))
  where
    by_import :
        (d' : Disk)
        → ((not_nil d'.rows ≡ true) ⊎ (d'.legacy ≡ absent))
        → import_legacy later d' ≡ d'
    by_import d' (inl h) =
        ap (imported d') (again_by_rows later.commits later.now d'.legacy d'.rows h)
    by_import d' (inr h) = ap (imported d') (
        ap (λ l. migrate_legacy later.commits later.now l d'.rows) h
        ∙ again_by_legacy later.commits later.now d'.rows)

abbrev pub HasSnapshots : Disk → Type 0
HasSnapshots d = has_column "runSnapshot" (columns_of d) ≡ true

create_table_again : (d : Disk) → HasSnapshots d → create_table d ≡ d
unfolding create_table
create_table_again d h = by_columns d.columns (record d { columns = some schema_columns }) d h
  where
    by_columns :
        (c : Option (List String)) (made old : Disk)
        → has_column "runSnapshot" (elim c [ none ↦ [] | some cs ↦ cs ]) ≡ true
        → (elim c [ none ↦ made | some cs ↦ old ]) ≡ old
    by_columns none made old h = absurd (cc h)
    by_columns (some cs) made old h = refl

ensure-HasSnapshots :
    (o : Opening) (d : Disk)
    → (ensure_run_snapshot_column o d).1 ≡ true
    → HasSnapshots (ensure_run_snapshot_column o d).0
unfolding ensure_run_snapshot_column
ensure-HasSnapshots o d h = ground (arith, h, has_column-end "runSnapshot" (columns_of d))

ensure_again : (o : Opening) (d : Disk) → HasSnapshots d → (ensure_run_snapshot_column o d).0 ≡ d
unfolding ensure_run_snapshot_column
ensure_again o d h = ground (arith, h)

after_again :
    (o : Opening) (d : Disk) (p : Disk × Bool)
    → p.0 ≡ d
    → import_legacy o d ≡ d
    → (after_ensure o p).0 ≡ d
unfolding after_ensure
after_again o d (d', true) e settled = ap (import_legacy o) e ∙ settled
after_again o d (d', false) e settled = e

open_again :
    (o : Opening) (d : Disk) → HasSnapshots d → import_legacy o d ≡ d → (open_store o d).0 ≡ d
unfolding open_store
open_again o d h settled =
    let IsSame : Disk × Bool → Type 0 = λ p. p.0 ≡ d in
    if_cases IsSame o.makes_dir _ _
      (λ _.
        if_cases IsSame o.opens _ _
          (λ _.
            if_cases IsSame o.creates _ _
              (λ _.
                after_again o d (ensure_run_snapshot_column o (create_table d))
                  (ap (λ e. (ensure_run_snapshot_column o e).0) (create_table_again d h)
                    ∙ ensure_again o d h)
                  settled)
              (λ _. refl))
          (λ _. refl))
      (λ _. refl)

after_ensure-HasSnapshots :
    (o : Opening) (p : Disk × Bool)
    → (p.1 ≡ true → HasSnapshots p.0)
    → (after_ensure o p).1 ≡ true
    → HasSnapshots (after_ensure o p).0 × ((after_ensure o p).0 ≡ import_legacy o p.0)
unfolding after_ensure import_legacy
after_ensure-HasSnapshots o (d, true) k h = (k refl, refl)
after_ensure-HasSnapshots o (d, false) k h = absurd (cc h)

opened_by :
    (o : Opening) (d : Disk)
    → (open_store o d).1 ≡ true
    → open_store o d ≡ after_ensure o (ensure_run_snapshot_column o (create_table d))
unfolding open_store
opened_by o d h = ground (arith, h)

-- A store that has been opened with its import committed has the column of the snapshots, and every
-- later opening, whether it succeeds or not, leaves its file and the legacy file as they are.
pub open_store_twice :
    (o later : Opening) (d : Disk)
    → (open_store o d).1 ≡ true
    → o.commits ≡ true
    → HasSnapshots (open_store o d).0
      × ((open_store later (open_store o d).0).0 ≡ (open_store o d).0)
open_store_twice o later d h commits =
    let e = opened_by o d h in
    let p = ensure_run_snapshot_column o (create_table d) in
    let (has, same_disk) =
      after_ensure-HasSnapshots o p (ensure-HasSnapshots o (create_table d))
        (subst (λ q. q.1 ≡ true) e h) in
    let q : (HasSnapshots (after_ensure o p).0)
        × ((open_store later (after_ensure o p).0).0 ≡ (after_ensure o p).0) =
      (
        has,
        open_again later (after_ensure o p).0 has
            (ap (import_legacy later) same_disk ∙ import_twice o later p.0 commits ∙ sym same_disk),
      ) in
    subst (λ r. HasSnapshots r.0 × ((open_store later r.0).0 ≡ r.0)) (sym e) q
