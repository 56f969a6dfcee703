-- ===== src/Jobs/Store/Opening.antt =====
-- internal/jobs/store.go: OpenStore and the column that it adds to an older table.
pub mod Twice
use pi_mcp.Prelude.{
  ℕ, ◌≡◌, refl, sym, ap, subst, ◌∙◌, Bool, true, false, ◌||◌, String, Option, none, some, List, [],
  ◌∷◌, ◌++◌, arith, same, if◌then◌else◌, if_cases, inl, inr, ◌⊎◌,
}
use pi_mcp.Jobs.Store.{
  Store, Legacy, absent, corrupt, jobs, LegacyFate, kept, quarantined, migrated, upsert_jobs,
  migrate_legacy,
}

-- The database file with the legacy file beside it: the columns of the table of jobs, if there is one,
-- and its rows.
pub record Disk : Type 0 where
  pub columns : Option (List String)
  pub rows : Store
  pub legacy : Legacy

-- Which steps of an opening succeed.
pub record Opening : Type 0 where
  pub makes_dir : Bool
  pub opens : Bool
  pub creates : Bool
  pub queries : Bool
  pub alters : Bool
  pub commits : Bool
  pub now : ℕ

abbrev pub schema_columns : List String
schema_columns =
    "jobId" ∷ "runId" ∷ "sessionId" ∷ "mode" ∷ "cwd" ∷ "runsDir" ∷ "worktreePath" ∷ "branch" ∷ "pid"
    ∷ "status" ∷ "startedAt" ∷ "errorCode" ∷ "errorMessage" ∷ "ownerPid" ∷ "ownerStartedAt"
    ∷ "updatedAt" ∷ "runSnapshot" ∷ []

abbrev pub has_column : String → List String → Bool
has_column c [] = false
has_column c (d ∷ cs) = same d c || has_column c cs

-- CREATE TABLE IF NOT EXISTS
unfoldable pub create_table : Disk → Disk
create_table d = elim d.columns [ none ↦ record d { columns = some schema_columns } | some cs ↦ d ]

abbrev pub columns_of : Disk → List String
columns_of d = elim d.columns [ none ↦ [] | some cs ↦ cs ]

-- Whether there is no error.
unfoldable pub ensure_run_snapshot_column : Opening → Disk → Disk × Bool
ensure_run_snapshot_column o d =
    if o.queries
    then (if has_column "runSnapshot" (columns_of d)
        then (d, true)
        else if o.alters
        then (record d { columns = some (columns_of d ++ ("runSnapshot" ∷ [])) }, true)
        else (d, false))
    else (d, false)

-- The legacy file is renamed where it has been read.
abbrev pub left_of : LegacyFate → Legacy → Legacy
left_of kept legacy = legacy
left_of quarantined legacy = absent
left_of migrated legacy = absent

unfoldable pub import_legacy : Opening → Disk → Disk
unfolding migrate_legacy
import_legacy o d =
    let (rows, fate) = migrate_legacy o.commits o.now d.legacy d.rows in
    record d { rows = rows; legacy = left_of fate d.legacy }

-- An error of the import is logged, and the store is open.
unfoldable pub after_ensure : Opening → Disk × Bool → Disk × Bool
unfolding import_legacy
after_ensure o (d, ensured) = if ensured then (import_legacy o d, true) else (d, false)

unfoldable pub open_store : Opening → Disk → Disk × Bool
unfolding create_table ensure_run_snapshot_column after_ensure
open_store o d =
    if o.makes_dir
    then (if o.opens
        then (if o.creates
            then (after_ensure o (ensure_run_snapshot_column o (create_table d)))
            else (d, false))
        else (d, false))
    else (d, false)
