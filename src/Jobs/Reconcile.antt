-- ===== src/Jobs/Reconcile.antt =====
-- internal/jobs/reconcile.go and the process test of internal/jobs/liveness.go: the sweep that
-- claims the jobs of dead servers. `signal` says whether kill(pid, 0) finds a process; `db` says for
-- each job whether the database runs the claim.
pub mod Again
pub mod Sweep
use pi_mcp.Prelude.{
  ℕ, zero, suc, Bool, true, false, String, Option, none, some, List, [], ◌∷◌, ◌++◌, ◌&&◌, not, same,
  if◌then◌else◌,
}
use pi_mcp.Prelude.Clock.{ℤ, pos, negsuc}
use pi_mcp.Config.{err_server_restarted}
use pi_mcp.Model.{JobRecord, failed, is_write}
use pi_mcp.LiveStatus.{is_terminal}
use pi_mcp.Jobs.Store.{Store, Owner, all_jobs, claim_terminal}

unfoldable pub pid_alive : (ℕ → Bool) → ℤ → Bool
pid_alive signal (negsuc n) = false
pid_alive signal (pos zero) = false
pid_alive signal (pos (suc n)) = signal (suc n)

-- A worktree and branch that the sweep prunes, with its job.
pub record Pruned : Type 0 where
  pub job_id : String
  pub worktree_path : String
  pub branch : String

-- What the winner of a claim prunes: nothing, while a process of the job may still write.
unfoldable pub prune_of : (ℕ → Bool) → JobRecord → List Pruned
prune_of signal rec =
    if is_write rec.mode && not (same rec.worktree_path "")
    then if pid_alive signal rec.pid
      then []
      else record { job_id = rec.job_id; worktree_path = rec.worktree_path; branch = rec.branch }
        ∷ []
    else []

-- One round of the loop.
unfoldable pub sweep_row :
    (ℕ → Bool) → (String → Bool) → Owner → JobRecord → ℤ → Store → Store × List Pruned
sweep_row signal db o rec owner st =
    if is_terminal rec.status
    then (st, [])
    else if pid_alive signal owner
    then (st, [])
    else if not (db rec.job_id)
    then (st, [])
    else let (st', won) = claim_terminal o rec.job_id failed err_server_restarted st in
      if won then (st', prune_of signal rec) else (st', [])

unfoldable pub sweep_rows :
    (ℕ → Bool)
    → (String → Bool)
    → Owner
    → List (JobRecord × ℤ)
    → Store
    → List Pruned
    → Store × List Pruned
sweep_rows signal db o [] st prunes = (st, prunes)
sweep_rows signal db o ((rec, owner) ∷ rows) st prunes =
    let (st', more) = sweep_row signal db o rec owner st in
    sweep_rows signal db o rows st' (prunes ++ more)

-- The rows are read once, before the loop.
unfoldable pub reconcile : (ℕ → Bool) → (String → Bool) → Owner → Store → Store × List Pruned
unfolding sweep_rows
reconcile signal db o st = sweep_rows signal db o (all_jobs st) st []
