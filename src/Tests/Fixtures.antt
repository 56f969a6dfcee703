-- ===== src/Tests/Fixtures.antt =====
-- Jobs, rows, runs and registries for the runs.
use pi_mcp.Prelude.{ℕ, refl, true, false, String, none, [], string_dec}
use pi_mcp.Prelude.Clock.{pos}
use pi_mcp.Prelude.Dict.{lookup, insert}
use pi_mcp.Model.{JobMode, write, read}
use pi_mcp.Jobs.Job.{Spec, job_id_of, new_job, starting}
use pi_mcp.Jobs.Registry.{Registry, Env, new_registry, submit, try_admit, flush}
use pi_mcp.Jobs.Registry.Steps.{Move, submits, moves, step}
use pi_mcp.Jobs.Registry.Call.{Call, has_pid}
use pi_mcp.Jobs.Registry.Steps.Safety.{Reachable, start, next}

abbrev pub spec_of : JobMode → String → Spec
spec_of mode id = record {
  mode = mode;
  cwd = "/src";
  runs_dir = "/src/.pi/workflows/runs";
  task = "review";
  context = "";
  worktree = "/wt";
  branch = "b";
  job_id = id;
  preassigned_id = id;
}

abbrev pub env_at : ℕ → Env
env_at now = record { now = now; db = true }

abbrev pub failing_env : Env
failing_env = record { now = 9; db = false }

-- A call of Submit whose process starts while nothing else happens.
abbrev pub call_at : Env → Call
call_at env = record {
  env = env;
  launching = record { before = []; result = has_pid (pos 42); env = env; between = []; snap = [] };
  after = [];
}

-- A registry of one slot, with a running job and a queued one.
abbrev pub opened : Registry
opened = new_registry 1 (pos 7) "server" []

abbrev pub one_job : Registry
one_job = step (env_at 1) (submits "m1" (spec_of write "a")) opened

abbrev pub two_jobs : Registry
two_jobs = step (env_at 2) (submits "m2" (spec_of read "b")) one_job

-- The process of the first job runs and ends.
abbrev pub launched_job : Registry
launched_job = step (env_at 3) (moves "a" (Move.launches (pos 42))) two_jobs

abbrev pub attempted_job : Registry
attempted_job = step (env_at 4) (moves "a" Move.begins) launched_job

abbrev pub exited_job : Registry
exited_job = step (env_at 5) (moves "a" Move.stops) attempted_job

abbrev pub finishing_job : Registry
finishing_job = step (env_at 6) (moves "a" (Move.waits none)) exited_job

abbrev pub finished_job : Registry
finished_job = step (env_at 7) (moves "a" Move.finishes) finishing_job

pub opened-Reachable : Reachable opened
opened-Reachable = start 1 (pos 7) "server" []

pub two_jobs-Reachable : Reachable two_jobs
unfolding step submit try_admit flush starting job_id_of new_job string_dec lookup insert
    new_registry
two_jobs-Reachable =
    next (next opened-Reachable (env_at 1) (submits "m1" (spec_of write "a")) refl) (env_at 2)
      (submits "m2" (spec_of read "b")) refl

pub finishing_job-Reachable : Reachable finishing_job
finishing_job-Reachable =
    next
      (next
        (next (next two_jobs-Reachable (env_at 3) (moves "a" (Move.launches (pos 42))) tt)
          (env_at 4) (moves "a" Move.begins) tt)
        (env_at 5) (moves "a" Move.stops) tt)
      (env_at 6) (moves "a" (Move.waits none)) tt
