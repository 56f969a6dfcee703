-- ===== src/Dashboard/Detail.antt =====
-- internal/dashboard/state.go and registry.go: what the dashboard reads of a job, and its detail.
pub mod Agreement
use Prim.Native.String
use pi_mcp.Prelude.{
  ℕ, Bool, true, false, not, ◌&&◌, ◌||◌, String, Option, none, some, List, [], ◌∷◌, map, same,
  if◌then◌else◌,
}
use pi_mcp.Prelude.Clock.{ℤ}
use pi_mcp.Prelude.Dict.{lookup}
use pi_mcp.Config.{max_inline_result_bytes}
use pi_mcp.Model.{
  Bytes, Status, completed, JobRecord, Run, Agent, TokenUsage, IntermediateResult, AuthoringInfo,
}
use pi_mcp.LiveStatus.{is_terminal}
use pi_mcp.Jobs.Store.{Store, Row}
use pi_mcp.RunStore.Events.{intermediates, raw_to_any}
use pi_mcp.RunStore.Files
use pi_mcp.Dashboard.RunCache
use pi_mcp.Dashboard.RunCache.{CacheRead, RunCache}
use pi_mcp.Dashboard.State.{JobSummary, Seen, summarize}

-- The rows of the registry, without their snapshots. `none` is a database that is not there; times
-- that do not parse are the zero time of their records.
unfoldable pub rows_of : Store → List JobRecord
rows_of [] = []
rows_of ((k, row) ∷ st) = record (row.job) { run_snapshot = [] } ∷ rows_of st

unfoldable pub read_registry : Option Store → List JobRecord
unfolding rows_of
read_registry none = []
read_registry (some st) = rows_of st

-- Empty where the row or its snapshot is absent.
unfoldable pub read_job_snapshot : Option Store → String → Bytes
read_job_snapshot none id = []
read_job_snapshot (some st) id = elim (lookup id st) [ none ↦ [] | some row ↦ row.job.run_snapshot ]

unfoldable pub run_file_exists : (String → Bool) → String → Bool
run_file_exists exists run_id =
    if same run_id ""
    then false
    else exists (Prim.Native.String.◌++◌ run_id ".json")
      || exists (Prim.Native.String.◌++◌ (Prim.Native.String.◌++◌ run_id ".json") ".bak")

-- The cache first, then the file and its backup. `decode` reads a file of the run's directory.
unfoldable pub read_run :
    (String → Option Run) → String → CacheRead → RunCache → Option Run × RunCache
unfolding RunCache.read Files.read_run
read_run decode run_id r c =
    if same run_id ""
    then (none, c)
    else let (cached, c') = RunCache.read r c in
      (
        elim cached [
          | some run ↦ some run
          | none ↦ Files.read_run decode (Prim.Native.String.◌++◌ run_id ".json")
        ],
        c',
      )

-- `parse` is encoding/json.
unfoldable pub decode_snapshot : (Bytes → Option Run) → Bytes → Option Run
decode_snapshot parse [] = none
decode_snapshot parse (b ∷ s) = parse (b ∷ s)

pub record AgentView : Type 0 where
  pub label : String
  pub model : String
  pub phase : String
  pub status : Status
  pub tokens : ℤ
  pub started_at : Option ℕ
  pub ended_at : Option ℕ
  pub error : String
  pub prompt : String
  pub result_preview : String

pub record JobDetail (Any : Type 0) : Type 0 where
  pub summary : JobSummary
  pub phases : List String
  pub agents : List AgentView
  pub intermediate : List (IntermediateResult Any)
  pub token_usage : Option TokenUsage
  pub result : Option Any
  pub authoring : Option AuthoringInfo

unfoldable pub agent_view : Agent → AgentView
agent_view a = record {
  label = a.label;
  model = a.model;
  phase = a.phase;
  status = a.status;
  tokens = a.tokens;
  started_at = a.started_at;
  ended_at = a.ended_at;
  error = elim a.error [ none ↦ "" | some msg ↦ msg ];
  prompt = a.prompt;
  result_preview = a.result_preview;
}

abbrev pub is_completed : Status → Bool
is_completed Status.completed = true
is_completed _ = false

-- What is read of the run, or of the snapshot in the record.
unfoldable pub run_or_snapshot : (Bytes → Option Run) → Option Run → Bytes → Option Run
unfolding decode_snapshot
run_or_snapshot parse (some run) snapshot = some run
run_or_snapshot parse none snapshot = decode_snapshot parse snapshot

module _ {Any : Type 0} (decode_any : Bytes → Option Any) where
  -- A detail of the summary alone.
  abbrev pub of_summary : JobSummary → JobDetail Any
  of_summary summary = record {
    summary = summary;
    phases = [];
    agents = [];
    intermediate = [];
    token_usage = none;
    result = none;
    authoring = none;
  }

  unfoldable pub of_run : JobSummary → Option AuthoringInfo → Option Run → JobDetail Any
  unfolding agent_view raw_to_any intermediates
  of_run summary authoring none = record (of_summary summary) {
    authoring = if summary.blind_window then authoring else none;
  }
  of_run summary authoring (some run) = record (of_summary summary) {
    phases = run.phases;
    agents = map agent_view run.agents;
    intermediate = intermediates decode_any run max_inline_result_bytes;
    token_usage = run.token_usage;
    result =
        if is_terminal summary.status && is_completed summary.status
        then raw_to_any decode_any run.result
        else none;
  }

  -- `seen` is what the summary is made of and `read` what is read of the run after it.
  unfoldable pub build_detail :
      (Bytes → Option Run) → Seen → Option Run → Option AuthoringInfo → ℕ → JobDetail Any
  unfolding summarize run_or_snapshot of_run
  build_detail parse seen read authoring now =
      of_run (summarize now seen) authoring (run_or_snapshot parse read seen.rec.run_snapshot)
