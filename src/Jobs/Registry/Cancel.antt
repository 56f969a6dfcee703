-- ===== src/Jobs/Registry/Cancel.antt =====
-- internal/jobs/cancel.go, and Close, Lookup, LookupByRun and StatusOf of the registry.
use pi_mcp.Prelude.{
  ℕ, Bool, true, false, ◌&&◌, ◌||◌, String, Option, none, some, [], ◌∷◌, same, if◌then◌else◌,
}
use mathlib.Core.Option
use pi_mcp.Prelude.Dict.{Dict, lookup}
use pi_mcp.Config.{err_workflow_aborted}
use pi_mcp.Model.{JobRecord, Status, queued, running, aborted, other, is_write}
use pi_mcp.Jobs.Job.{Context, unset, Job, mark}
use pi_mcp.Jobs.Liveness.{effective_status}
use pi_mcp.Jobs.Registry.{Registry, Env, put, flush, remove_from_queue}
use pi_mcp.Jobs.Registry.Finish.{close_done, prune}

unfoldable pub abort : ℕ → Job → Job
unfolding mark
abort now j =
    let j' = mark aborted now j in
    record j' { rec = record (j'.rec) { error_code = err_workflow_aborted } }

-- A queued job never launched: it leaves the queue, and its channel is closed here.
unfoldable pub cancel_queued : Env → String → Job → Registry → Registry
cancel_queued env id j r =
    let j' = abort env.now j in
    let r' = record r { queue = remove_from_queue id r.queue } in
    prune (is_write j.rec.mode) j.rec.worktree_path j.rec.branch
      (close_done id j' (flush env (put id j' r')))

abbrev pub is_unset : Context → Bool
is_unset unset = true
is_unset _ = false

-- The call of a launched job's cancel function is a step of its own; without one the worktree is
-- pruned here.
unfoldable pub cancel_running : Env → String → Job → Registry → Registry
cancel_running env id j r =
    prune (is_unset j.ctx && is_write j.rec.mode) j.rec.worktree_path j.rec.branch
      (flush env (put id (abort env.now j) r))

unfoldable pub cancel_by : Status → Env → String → Job → Registry → Registry
cancel_by queued env id j r = cancel_queued env id j r
cancel_by running env id j r = cancel_running env id j r
cancel_by _ env id j r = r

-- The record that Cancel returns; `none` is its error.
unfoldable pub cancel : Env → String → Registry → Registry × Option JobRecord
cancel env id r = elim (lookup id r.jobs) [
  | none ↦ (r, none)
  | some j ↦
      let r' = cancel_by j.rec.status env id j r in
      (r', Option.map (λ (k : Job). k.rec) (lookup id r'.jobs))
]

-- The section of Close; the calls of the cancel functions are steps of their own.
unfoldable pub close : Env → Registry → Registry
unfolding flush
close env r = if r.closed then r else flush env (record r { closed = true })

unfoldable pub lookup_job : String → Registry → Option JobRecord
lookup_job id r = Option.map (λ (j : Job). j.rec) (lookup id r.jobs)

by_run : String → String → Dict Job → Option JobRecord
by_run run cwd [] = none
by_run run cwd ((k, j) ∷ d) =
    if same j.rec.run_id run && (same j.rec.cwd cwd || same j.rec.worktree_path cwd)
    then some j.rec
    else by_run run cwd d

-- The code's order over its map is any order; here it is the order of submission.
unfoldable pub lookup_by_run : String → String → Registry → Option JobRecord
unfolding by_run
lookup_by_run run cwd r = by_run run cwd r.jobs

unfoldable pub status_of : String → Bool → (ℕ → Bool) → ℕ → Registry → Status
status_of id same_session signal now r = elim (lookup id r.jobs) [
  | none ↦ other ""
  | some j ↦ effective_status j.rec j.updated_at same_session signal now
]
