-- ===== src/Dashboard/State.antt =====
-- internal/dashboard/state.go: the rows and counts of the overview. Each record comes with what the
-- code reads for it: its run, from the file or the snapshot, and whether its worktree is active.
pub mod Overview
use pi_mcp.Prelude.{
  ℕ, suc, ◌+◌, ◌-◌, ◌%◌, ◌^◌, Bool, true, false, not, ◌&&◌, String, Option, none, some, List, [],
  ◌∷◌, map, ltb, same, ◌==◌, if◌then◌else◌, length,
}
use pi_mcp.Prelude.Clock.{ℤ, pos, negsuc, sub_time, exceeds}
use pi_mcp.Prelude.Dict.{Dict}
use pi_mcp.Prelude.Sort.{sort_by}
use pi_mcp.Config.{stale_threshold, err_server_restarted}
use pi_mcp.Model.{
  Status, queued, running, stalled, completed, failed, aborted, JobMode, JobRecord, Run, Agent,
  is_write,
}
use pi_mcp.LiveStatus.{is_terminal, derive}
use pi_mcp.RunStore.Events.{model_histogram}

pub record Counts : Type 0 where
  pub running : ℕ
  pub queued : ℕ
  pub completed : ℕ
  pub failed : ℕ
  pub aborted : ℕ
  pub stalled : ℕ
  pub total : ℕ

-- An empty histogram is an absent one.
pub record JobSummary : Type 0 where
  pub job_id : String
  pub mode : JobMode
  pub status : Status
  pub workflow_name : String
  pub cwd : String
  pub worktree_path : String
  pub branch : String
  pub run_id : String
  pub started_at : ℕ
  pub completed_at : Option ℕ
  pub blind_window : Bool
  pub phase : String
  pub agents_done : ℕ
  pub agents_total : ℕ
  pub fleet_by_model : Dict ℕ
  pub live_tokens : ℤ
  pub cost : Option ℕ
  pub duration_ms : Option ℤ
  pub error_code : String
  pub error_message : String

pub record Seen : Type 0 where
  pub rec : JobRecord
  pub run : Option Run
  pub active : Bool

-- The addition of int64, on the residues of 2 ^ 64.
abbrev pub word_of : ℤ → ℕ
word_of (pos n) = n % 2 ^ 64
word_of (negsuc n) = 2 ^ 64 - 1 - n % 2 ^ 64

abbrev pub int_of : ℕ → ℤ
int_of m = if ltb m (2 ^ 63) then pos m else negsuc (2 ^ 64 - 1 - m)

unfoldable pub add_int : ℤ → ℤ → ℤ
add_int a b = int_of ((word_of a + word_of b) % 2 ^ 64)

unfoldable pub tokens_from : ℤ → List Agent → ℤ
tokens_from sum [] = sum
tokens_from sum (a ∷ rest) = tokens_from (add_int sum a.tokens) rest

abbrev pub is_done : Status → Bool
is_done Status.done = true
is_done _ = false

unfoldable pub done_agents : List Agent → ℕ
done_agents [] = 0
done_agents (a ∷ rest) =
    let later = done_agents rest in if is_done a.status then suc later else later

unfoldable pub of_job : JobRecord → Status → JobSummary
of_job rec status = record {
  job_id = rec.job_id;
  mode = rec.mode;
  status = status;
  workflow_name = "";
  cwd = rec.cwd;
  worktree_path = rec.worktree_path;
  branch = rec.branch;
  run_id = rec.run_id;
  started_at = rec.started_at;
  completed_at = none;
  blind_window = false;
  phase = "";
  agents_done = 0;
  agents_total = 0;
  fleet_by_model = [];
  live_tokens = pos 0;
  cost = none;
  duration_ms = none;
  error_code = rec.error_code;
  error_message = rec.error_message;
}

-- A job without a run, by its status.
unfoldable pub without_run : Status → JobRecord → Bool → ℕ → JobSummary
unfolding of_job
without_run Status.running rec active now =
    if not active && exceeds (sub_time now rec.started_at) stale_threshold
    then record (of_job rec Status.failed) {
      error_code = if same rec.error_code "" then err_server_restarted else rec.error_code;
    }
    else record (of_job rec Status.running) { blind_window = true }
without_run status rec active now = of_job rec status

-- The status of a registry record that has ended wins over the run's.
unfoldable pub with_run : JobRecord → Run → Bool → ℕ → JobSummary
unfolding of_job done_agents tokens_from model_histogram
with_run rec run active now =
    record (of_job rec (
      if is_terminal rec.status
      then rec.status
      else derive run.status run.updated_at now true active)) {
        run_id = run.run_id;
        workflow_name = run.workflow_name;
        phase = elim run.current_phase [ none ↦ "" | some ph ↦ ph ];
        agents_total = length run.agents;
        agents_done = done_agents run.agents;
        live_tokens = tokens_from (pos 0) run.agents;
        fleet_by_model = model_histogram run;
        completed_at = run.completed_at;
        duration_ms = run.duration_ms;
        cost = elim run.token_usage [ none ↦ none | some usage ↦ some usage.cost ];
      }

unfoldable pub summarize : ℕ → Seen → JobSummary
unfolding without_run with_run
summarize now s =
    let active = is_write s.rec.mode && s.active in
    elim s.run [
      | none ↦ without_run s.rec.status s.rec active now
      | some run ↦ with_run s.rec run active now
    ]

unfoldable pub count_status : Status → Counts → Counts
count_status Status.running c = record c { running = suc c.running }
count_status Status.queued c = record c { queued = suc c.queued }
count_status Status.completed c = record c { completed = suc c.completed }
count_status Status.failed c = record c { failed = suc c.failed }
count_status Status.aborted c = record c { aborted = suc c.aborted }
count_status Status.stalled c = record c { stalled = suc c.stalled }
count_status _ c = c

unfoldable pub count_jobs : List JobSummary → Counts → Counts
unfolding count_status
count_jobs [] c = c
count_jobs (js ∷ rest) c =
    count_jobs rest (count_status js.status (record c { total = suc c.total }))

abbrev pub no_counts : Counts
no_counts = record {
  running = 0;
  queued = 0;
  completed = 0;
  failed = 0;
  aborted = 0;
  stalled = 0;
  total = 0;
}

-- The active jobs first, then the later start.
unfoldable pub shown_first : JobSummary → JobSummary → Bool
shown_first a b =
    if is_terminal a.status
    then is_terminal b.status && ltb b.started_at a.started_at
    else if is_terminal b.status
    then true
    else ltb b.started_at a.started_at

pub record DashboardState : Type 0 where
  pub generated_at : ℕ
  pub state_dir : String
  pub counts : Counts
  pub jobs : List JobSummary

unfoldable pub build_state : List Seen → String → ℕ → DashboardState
unfolding summarize count_jobs shown_first
build_state seen state_dir now =
    let rows = map (summarize now) seen in
    record {
      generated_at = now;
      state_dir = state_dir;
      counts = count_jobs rows no_counts;
      jobs = sort_by shown_first rows;
    }
