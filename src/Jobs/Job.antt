-- ===== src/Jobs/Job.antt =====
-- internal/jobs/job.go: a job, with the place of the goroutine that runs it.
use pi_mcp.Prelude.{ℕ, Bool, false, String, [], same, if◌then◌else◌}
use pi_mcp.Prelude.Clock.{pos}
use pi_mcp.Model.{JobMode, JobRecord, Status, queued, running}

pub record Spec : Type 0 where
  pub mode : JobMode
  pub cwd : String
  pub runs_dir : String
  pub task : String
  pub context : String
  pub worktree : String
  pub branch : String
  pub job_id : String
  pub preassigned_id : String

-- The launch context: not installed, live, or cancelled (which kills the process group).
pub data Context : Type 0 where
  unset live cancelled : Context

-- The correlate goroutine of the current attempt: not started, before the session event, polling
-- for the run file of a session, or exited.
pub data Correlate : Type 0 where
  unstarted awaiting exited : Correlate
  polling : String → Correlate

-- Where the code that runs the job stands. `ready` to `relaunching` carry the attempt number of
-- runAttempts; `finishing` has called finish; `tail` is finish after its locked section.
pub data Phase : Type 0 where
  idle launching abandoned tail over : Phase
  ready waiting retrying relaunching : ℕ → Phase
  undecided : ℕ → String → Phase
  finishing : Status → String → String → Phase

pub record Job : Type 0 where
  pub rec : JobRecord
  pub task : String
  pub context : String
  pub updated_at : ℕ
  pub ctx : Context
  pub done : Bool
  pub correlated : Correlate
  pub phase : Phase

-- `minted` is the fresh id of the uuid library.
unfoldable pub job_id_of : String → Spec → String
job_id_of minted spec = if same spec.preassigned_id "" then minted else spec.preassigned_id

unfoldable pub new_job : ℕ → String → Spec → Job
unfolding job_id_of
new_job now minted spec = record {
  rec = record {
    job_id = job_id_of minted spec;
    run_id = "";
    session_id = "";
    mode = spec.mode;
    cwd = spec.cwd;
    runs_dir = spec.runs_dir;
    worktree_path = spec.worktree;
    branch = spec.branch;
    pid = pos 0;
    status = queued;
    started_at = now;
    error_code = "";
    error_message = "";
    run_snapshot = [];
  };
  task = spec.task;
  context = spec.context;
  updated_at = now;
  ctx = unset;
  done = false;
  correlated = unstarted;
  phase = idle;
}

unfoldable pub mark : Status → ℕ → Job → Job
mark status now j = record j { rec = record (j.rec) { status = status }; updated_at = now }

-- The context and the status are set together.
unfoldable pub starting : ℕ → Job → Job
unfolding mark
starting now j = record (mark running now j) { ctx = live; phase = launching }
