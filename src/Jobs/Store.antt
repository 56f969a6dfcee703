-- ===== src/Jobs/Store.antt =====
-- internal/jobs/store.go: the registry table. The table is a dictionary from its primary key to a
-- row; each SQL statement is a function on it. Whether the database runs a statement is an
-- argument of the callers.
pub mod Migration
pub mod Opening
pub mod Ownership
use pi_mcp.Prelude.{ℕ, zero, Bool, true, false, String, Option, none, some, List, [], ◌∷◌}
use pi_mcp.Prelude.{if◌then◌else◌, ◌||◌, not, same, map}
use pi_mcp.Prelude.Clock.{ℤ, pos, same_int}
use pi_mcp.Prelude.Dict.{Dict, lookup, insert}
use pi_mcp.Config.{err_server_restarted}
use pi_mcp.Model.{JobRecord, Status, failed, Bytes}
use pi_mcp.LiveStatus.{is_terminal}

-- The columns: those of the job record, its snapshot among them, and the owner's.
pub record Row : Type 0 where
  pub job : JobRecord
  pub owner_pid : ℤ
  pub owner_started_at : String
  pub updated_at : ℕ

abbrev pub Store : Type 0
Store = Dict Row

-- The server that issues a statement, and the time of the statement.
pub record Owner : Type 0 where
  pub pid : ℤ
  pub started_at : String
  pub now : ℕ

unfoldable pub row_of : Owner → JobRecord → Row
row_of o rec = record {
  job = record rec { run_snapshot = [] };
  owner_pid = o.pid;
  owner_started_at = o.started_at;
  updated_at = o.now;
}

-- `ON CONFLICT DO UPDATE`: every column but the snapshot.
unfoldable pub excluded : Owner → JobRecord → Row → Row
excluded o rec old = record {
  job = record rec { run_snapshot = old.job.run_snapshot };
  owner_pid = o.pid;
  owner_started_at = o.started_at;
  updated_at = o.now;
}

-- `WHERE jobs.ownerPid=excluded.ownerPid OR jobs.ownerPid=0`
unfoldable pub may_write : Owner → Row → Bool
may_write o old = same_int old.owner_pid o.pid || same_int old.owner_pid (pos 0)

unfoldable pub upsert_row : Owner → JobRecord → Store → Store
unfolding row_of excluded may_write
upsert_row o rec st = elim (lookup rec.job_id st) [
  | none ↦ insert rec.job_id (row_of o rec) st
  | some old ↦ if may_write o old then insert rec.job_id (excluded o rec old) st else st
]

-- One transaction over the records.
unfoldable pub upsert_jobs : Owner → List JobRecord → Store → Store
upsert_jobs o [] st = st
upsert_jobs o (rec ∷ recs) st = upsert_jobs o recs (upsert_row o rec st)

-- Every row with its owner's process.
unfoldable pub all_jobs : Store → List (JobRecord × ℤ)
all_jobs [] = []
all_jobs ((k, row) ∷ st) = (row.job, row.owner_pid) ∷ all_jobs st

unfoldable pub claimed : Owner → Status → String → Row → Row
claimed o status code row = record {
  job = record (row.job) { status = status; error_code = code };
  owner_pid = o.pid;
  owner_started_at = o.started_at;
  updated_at = o.now;
}

-- The update of a row that is not terminal, and whether it changed one.
unfoldable pub claim_terminal : Owner → String → Status → String → Store → Store × Bool
unfolding claimed
claim_terminal o id status code st = elim (lookup id st) [
  | none ↦ (st, false)
  | some row ↦
      if is_terminal row.job.status
      then (st, false)
      else (insert id (claimed o status code row) st, true)
]

unfoldable pub save_snapshot : ℤ → String → Bytes → Store → Store
save_snapshot owner id bytes st = elim (lookup id st) [
  | none ↦ st
  | some row ↦
      if same_int row.owner_pid owner
      then insert id (record row { job = record (row.job) { run_snapshot = bytes } }) st
      else st
]

-- The legacy registry.json beside the database.
pub data Legacy : Type 0 where
  absent corrupt : Legacy
  jobs : List JobRecord → Legacy

-- What becomes of that file.
pub data LegacyFate : Type 0 where
  kept quarantined migrated : LegacyFate

unfoldable pub terminalize : JobRecord → JobRecord
terminalize rec = if is_terminal rec.status then rec else record rec {
  status = failed;
  error_code = if same rec.error_code "" then err_server_restarted else rec.error_code;
}

-- The import happens once, into an empty table, with an owner that is dead. `db` says whether
-- the transaction commits.
unfoldable pub migrate_legacy : Bool → ℕ → Legacy → Store → Store × LegacyFate
unfolding terminalize
migrate_legacy db now absent st = (st, kept)
migrate_legacy db now corrupt [] = ([], quarantined)
migrate_legacy db now (jobs []) [] = ([], migrated)
migrate_legacy db now (jobs (rec ∷ recs)) [] =
    if db
    then (
      upsert_jobs (record { pid = pos 0; started_at = ""; now = now })
          (map terminalize (rec ∷ recs)) [],
      migrated,
    )
    else ([], kept)
migrate_legacy db now _ (row ∷ st) = (row ∷ st, kept)
