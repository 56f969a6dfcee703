-- ===== src/Jobs/Registry/Finish.antt =====
-- internal/jobs/registry.go: finish, with the release of the slot and the start of the next job.
use pi_mcp.Prelude.{
  ℕ, ◌+◌, ◌-◌, Bool, true, false, not, ◌&&◌, String, none, some, List, [], ◌∷◌, ltb, same,
  if◌then◌else◌,
}
use pi_mcp.Prelude.Dict.{lookup}
use pi_mcp.Model.{Bytes, Status, queued, running, aborted, is_write, is_aborted}
use pi_mcp.LiveStatus.{is_terminal}
use pi_mcp.Jobs.Store.{save_snapshot}
use pi_mcp.Jobs.Job.{tail, over, Job, mark, starting}
use pi_mcp.Jobs.Registry.{Registry, Env, put, flush}

-- A job that was running, or that a cancel marked aborted while it ran, holds a slot.
abbrev pub is_slot_status : Status → Bool
is_slot_status running = true
is_slot_status aborted = true
is_slot_status _ = false

abbrev pub if_set : String → String → String
if_set new old = if same new "" then old else new

-- The status and the error are set only if the job is not terminal yet.
unfoldable pub settle : ℕ → Status → String → String → Job → Job
unfolding mark
settle now status code msg j =
    if is_terminal j.rec.status
    then j
    else let j' = mark status now j in
      record j' {
        rec = record (j'.rec) {
          error_code = if_set code j.rec.error_code;
          error_message = if_set msg j.rec.error_message;
        };
      }

-- The head of the queue takes a slot, or goes back where it was.
unfoldable pub admit_next : Env → String → List String → Registry → Registry
unfolding starting mark
admit_next env id rest r = elim (lookup id r.jobs) [
  | none ↦ record r { queue = rest }
  | some j ↦
      if ltb r.slots r.cap
      then put id (starting env.now j) (record r { slots = r.slots + 1; queue = rest })
      else put id (mark queued env.now j) r
]

unfoldable pub promote_from : Env → List String → Registry → Registry
unfolding admit_next
promote_from env [] r = r
promote_from env (id ∷ rest) r = admit_next env id rest r

unfoldable pub promote : Env → Registry → Registry
unfolding promote_from
promote env r = promote_from env r.queue r

-- No job is started once Close has begun.
unfoldable pub release_slot : Env → Registry → Registry
release_slot env r =
    let freed = record r { slots = r.slots - 1 } in if r.closed then freed else promote env freed

-- The locked section of finish.
unfoldable pub finish : Env → String → Status → String → String → Job → Registry → Registry
finish env id status code msg j r =
    let settled = put id (record (settle env.now status code msg j) { phase = tail }) r in
    flush env (if is_slot_status j.rec.status then release_slot env settled else settled)

-- `close(j.done)`, which panics on a closed channel.
unfoldable pub close_done : String → Job → Registry → Registry
close_done id j r =
    if j.done
    then record r { panicked = true }
    else put id (record j { done = true; phase = over }) r

unfoldable pub prune : Bool → String → String → Registry → Registry
prune wanted path branch r = if wanted then record r { pruned = (path, branch) ∷ r.pruned } else r

is_empty : Bytes → Bool
is_empty [] = true
is_empty (b ∷ bs) = false

-- `snap` is what the app reads from the run file of the job's run.
unfoldable pub save_run_snapshot : Env → String → Bytes → Job → Registry → Registry
unfolding is_empty
save_run_snapshot env id snap j r =
    if not (same j.rec.run_id "") && not (is_empty snap) && env.db
    then record r { store = save_snapshot r.owner_pid id snap r.store }
    else r

-- After the section: the snapshot of the run file, the prune of an aborted write job, and the
-- close of the channel, in this order.
unfoldable pub finish_tail : Env → String → Bytes → Job → Registry → Registry
finish_tail env id snap j r = close_done id j (
    prune (is_write j.rec.mode && is_aborted j.rec.status) j.rec.worktree_path j.rec.branch
      (save_run_snapshot env id snap j r))
