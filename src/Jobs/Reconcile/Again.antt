-- ===== src/Jobs/Reconcile/Again.antt =====
-- A sweep after a sweep: a worktree that the first one spares is pruned by no later one.
use pi_mcp.Prelude.{
  ℕ, ◌≡◌, ◌≢◌, refl, Bool, true, false, String, some, List, [], ◌∷◌, ◌++◌, arith, if◌then◌else◌,
  All, string_dec,
}
use pi_mcp.Prelude.Dict.{lookup, insert, lookup-insert}
use pi_mcp.Config.{err_server_restarted}
use pi_mcp.Model.{JobRecord, failed}
use pi_mcp.LiveStatus.{is_terminal}
use pi_mcp.Jobs.Store.{Row, Store, Owner, all_jobs, claimed, claim_terminal}
use pi_mcp.Jobs.Reconcile.{pid_alive, Pruned, prune_of, sweep_row, sweep_rows, reconcile}
use pi_mcp.Jobs.Reconcile.Sweep.{
  IsTable, is_orphan, orphan_prunes, lookup-reconcile, prunes-reconcile,
}

IsTable-lookup :
    (k : String) (st : Store) (row : Row) → IsTable st → lookup k st ≡ some row → row.job.job_id ≡ k
unfolding lookup
IsTable-lookup k [] row t e = cc
IsTable-lookup k ((j, r) ∷ st) row (key, once, t) e = ground (arith, IsTable-lookup k st row t)

insert-IsTable :
    (k : String) (row : Row) (st : Store)
    → row.job.job_id ≡ k
    → IsTable st
    → IsTable (insert k row st)
unfolding insert lookup
insert-IsTable k row [] key t = (key, refl, tt)
insert-IsTable k row ((j, r) ∷ st) key (key', once, t) =
    ground (arith, insert-IsTable k row st key t, lookup-insert j k row st)

claim_terminal-IsTable :
    (o : Owner) (id : String) (code : String) (st : Store)
    → IsTable st
    → IsTable (claim_terminal o id failed code st).0
unfolding claim_terminal claimed
claim_terminal-IsTable o id code st t = grind (arith, IsTable-lookup, insert-IsTable)

sweep_rows-IsTable :
    (signal : ℕ → Bool) (db : String → Bool) (o : Owner) (rows st : Store) (prunes : List Pruned)
    → IsTable st
    → IsTable (sweep_rows signal db o (all_jobs rows) st prunes).0
unfolding sweep_rows all_jobs sweep_row
sweep_rows-IsTable signal db o [] st prunes t = t
sweep_rows-IsTable signal db o ((k, row) ∷ rows) st prunes t =
    sweep_rows-IsTable signal db o rows _ _
      (ground (arith, claim_terminal-IsTable o row.job.job_id err_server_restarted st t))

-- No prune of the list is for the job.
abbrev pub Spares : String → List Pruned → Type 0
Spares id = All (λ (p : Pruned). p.job_id ≢ id)

Spares-append :
    (id : String) (ps qs : List Pruned) → Spares id ps → Spares id qs → Spares id (ps ++ qs)
Spares-append id [] qs s t = t
Spares-append id (p ∷ ps) qs s t = (s.0, Spares-append id ps qs s.1 t)

-- The prunes of one row spare a job that the row is not, or that has nothing to prune.
prune_of-Spares :
    (signal : ℕ → Bool) (id : String) (rec : JobRecord) (b : Bool)
    → (b ≡ true → rec.job_id ≡ id → prune_of signal rec ≡ [])
    → Spares id (if b then prune_of signal rec else [])
prune_of-Spares signal id rec false h = tt
prune_of-Spares signal id rec true h = elim (string_dec rec.job_id id) [
  | yes own ↦ rw (h refl own) tt
  | no other ↦ unfold prune_of in ground arith
]

-- A job is spared, if its row is no orphan or has nothing to prune.
orphan_prunes-Spares :
    (signal : ℕ → Bool) (db : String → Bool) (id : String) (st : Store)
    → IsTable st
    → ((row : Row)
        → lookup id st ≡ some row
        → is_orphan signal db row ≡ true
        → prune_of signal row.job ≡ [])
    → Spares id (orphan_prunes signal db st)
unfolding lookup
orphan_prunes-Spares signal db id [] t h = tt
orphan_prunes-Spares signal db id ((k, row) ∷ st) (key, once, t) h =
    Spares-append id _ (orphan_prunes signal db st)
      (prune_of-Spares signal id row.job (is_orphan signal db row)
        (λ orphan own. h row (ground arith) orphan))
      (orphan_prunes-Spares signal db id st t (λ r e orphan. h r (ground arith) orphan))

reconcile-Spares :
    (signal : ℕ → Bool) (db : String → Bool) (o : Owner) (id : String) (st : Store)
    → IsTable st
    → ((row : Row)
        → lookup id st ≡ some row
        → is_orphan signal db row ≡ true
        → prune_of signal row.job ≡ [])
    → Spares id (reconcile signal db o st).1
reconcile-Spares signal db o id st t h =
    rw (prunes-reconcile signal db o st t) (orphan_prunes-Spares signal db id st t h)

reconcile-IsTable :
    (signal : ℕ → Bool) (db : String → Bool) (o : Owner) (st : Store)
    → IsTable st
    → IsTable (reconcile signal db o st).0
unfolding reconcile
reconcile-IsTable signal db o st t = sweep_rows-IsTable signal db o st st [] t

-- One sweep: the processes that are alive, the jobs that the database answers for, and the server.
pub record SweepRun : Type 0 where
  pub signal : ℕ → Bool
  pub db : String → Bool
  pub owner : Owner

-- The prunes of a sequence of sweeps.
unfoldable pub sweeps : List SweepRun → Store → List Pruned
sweeps [] st = []
sweeps (s ∷ ss) st =
    let (st', prunes) = reconcile s.signal s.db s.owner st in prunes ++ sweeps ss st'

-- A job whose row is terminal is never pruned.
terminal_spared :
    (ss : List SweepRun) (id : String) (row : Row) (st : Store)
    → IsTable st
    → lookup id st ≡ some row
    → is_terminal row.job.status ≡ true
    → Spares id (sweeps ss st)
unfolding sweeps
terminal_spared [] id row st t e over = tt
terminal_spared (s ∷ ss) id row st t e over =
    Spares-append id _ (sweeps ss (reconcile s.signal s.db s.owner st).0)
      (reconcile-Spares s.signal s.db s.owner id st t (λ r e' orphan. ground arith))
      (terminal_spared ss id row _ (reconcile-IsTable s.signal s.db s.owner st t)
        (ground (arith, lookup-reconcile s.signal s.db s.owner id st t)) over)

-- In a table whose rows stand under their jobs' ids, once each, an orphan whose own process still
-- runs at a sweep is pruned neither by that sweep nor by any of the sweeps after it, whichever
-- processes have died by then.
pub spared_for_good :
    (s : SweepRun) (later : List SweepRun) (id : String) (row : Row) (st : Store)
    → IsTable st
    → lookup id st ≡ some row
    → is_orphan s.signal s.db row ≡ true
    → pid_alive s.signal row.job.pid ≡ true
    → Spares id (sweeps (s ∷ later) st)
unfolding sweeps
spared_for_good s later id row st t e orphan alive =
    Spares-append id _ (sweeps later (reconcile s.signal s.db s.owner st).0)
      (reconcile-Spares s.signal s.db s.owner id st t (λ r e' _. unfold prune_of in ground arith))
      (terminal_spared later id (claimed s.owner failed err_server_restarted row) _
        (reconcile-IsTable s.signal s.db s.owner st t)
        (ground (arith, lookup-reconcile s.signal s.db s.owner id st t))
        (unfold claimed is_terminal in refl))
