-- ===== src/Tests/Tables.antt =====
-- A table of three rows, at the theorems about the table, the sweep and the statuses.
use mathlib.Core.Option
use pi_mcp.Prelude.{ℕ, ◌≡◌, refl, Bool, true, false, String, List, [], ◌∷◌, string_dec, ◌==◌, ◌||◌}
use pi_mcp.Prelude.Clock.{ℤ, pos}
use pi_mcp.Prelude.Dict.{lookup}
use pi_mcp.Model.{Status, running, completed, failed, JobMode, write, read, JobRecord}
use pi_mcp.LiveStatus.{is_terminal}
use pi_mcp.Jobs.Store.{Row, Store, Owner, upsert_jobs, claim_terminal}
use pi_mcp.Jobs.Store.Ownership.{claim_once, claim_fences_old_owner}
use pi_mcp.Jobs.Reconcile.{pid_alive, reconcile}
use pi_mcp.Jobs.Reconcile.Sweep.{IsTable, swept, lookup-reconcile}
use pi_mcp.Jobs.Reconcile.Again.{Spares, SweepRun, sweeps, spared_for_good}

abbrev pub record_of : String → JobMode → Status → ℤ → JobRecord
record_of id mode status pid = record {
  job_id = id;
  run_id = "";
  session_id = "";
  mode = mode;
  cwd = "/src";
  runs_dir = "/src/.pi/workflows/runs";
  worktree_path = "/wt";
  branch = "b";
  pid = pid;
  status = status;
  started_at = 1;
  error_code = "";
  error_message = "";
  run_snapshot = [];
}

abbrev row_by : ℕ → JobRecord → Row
row_by owner rec = record {
  job = rec;
  owner_pid = pos owner;
  owner_started_at = "s";
  updated_at = 1;
}

-- A running write job of the server 5, one that has ended, and a running job of the server 7.
abbrev table : Store
table =
    ("a", row_by 5 (record_of "a" write running (pos 42)))
    ∷ ("b", row_by 5 (record_of "b" write completed (pos 43)))
    ∷ ("c", row_by 7 (record_of "c" read running (pos 44)))
    ∷ []

abbrev server : ℕ → Owner
server pid = record { pid = pos pid; started_at = "t"; now = 9 }

-- Only the process of the job "a" and the server 7 are alive.
abbrev alive : ℕ → Bool
alive n = n == 42 || n == 7

abbrev all_dead : ℕ → Bool
all_dead n = false

abbrev commits : String → Bool
commits id = true

table-IsTable : IsTable table
unfolding lookup string_dec
table-IsTable = (refl, refl, (refl, refl, (refl, refl, tt)))

abbrev updates : List JobRecord
updates = record_of "a" write failed (pos 42) ∷ record_of "c" read failed (pos 44) ∷ []

claim_once_example :
    let st = (claim_terminal (server 7) "a" failed "" table).0 in
    claim_terminal (server 8) "a" completed "" st ≡ (st, false)
unfolding claim_terminal lookup string_dec is_terminal
claim_once_example = claim_once "a" (server 7) (server 8) failed completed "" "" table refl refl

claim_fences_old_owner_example :
    lookup "a" (upsert_jobs (server 5) updates (claim_terminal (server 7) "a" failed "" table).0)
    ≡ lookup "a" (claim_terminal (server 7) "a" failed "" table).0
unfolding claim_terminal lookup string_dec is_terminal
claim_fences_old_owner_example =
    claim_fences_old_owner "a" (server 7) (server 5) failed "" updates table refl (λ p. cc p)
      (λ p. cc p)

lookup-reconcile_example :
    lookup "a" (reconcile alive commits (server 7) table).0
    ≡ Option.map (swept alive commits (server 7)) (lookup "a" table)
lookup-reconcile_example = lookup-reconcile alive commits (server 7) "a" table table-IsTable

abbrev sweep_by : (ℕ → Bool) → ℕ → SweepRun
sweep_by signal pid = record { signal = signal; db = commits; owner = server pid }

spared_for_good_example :
    Spares "a" (sweeps (sweep_by alive 7 ∷ sweep_by all_dead 8 ∷ sweep_by all_dead 9 ∷ []) table)
unfolding lookup string_dec is_terminal pid_alive
spared_for_good_example =
    spared_for_good (sweep_by alive 7) (sweep_by all_dead 8 ∷ sweep_by all_dead 9 ∷ []) "a"
      (row_by 5 (record_of "a" write running (pos 42))) table table-IsTable refl refl refl
