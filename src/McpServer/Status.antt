-- ===== src/McpServer/Status.antt =====
-- internal/mcpserver/handler_status.go, the answer of pi_status. The ports of the server are the
-- fields of `World`; `reads` are the successive loads of a run file.
pub mod Blocks
pub mod Build
pub mod Answers
use pi_mcp.Prelude.{
  ℕ, zero, suc, ◌+◌, ◌/◌, Bool, true, false, ◌&&◌, ◌||◌, not, String, Option, none, some, List, [],
  ◌∷◌, same, ltb, leb, ◌==◌, if◌then◌else◌, length,
}
use Prim.Native.String
use pi_mcp.Prelude.Clock.{ℤ, pos, negsuc, same_int, sub_time, abs, second}
use pi_mcp.Config.{stale_threshold, err_unknown}
use pi_mcp.Model.{
  Status, JobMode, JobRecord, Run, Agent, Progress, WriteInfo, AuthoringInfo, is_write, is_aborted,
  other,
}
use pi_mcp.McpServer.Validate.{Files, validate_cwd}
use pi_mcp.LiveStatus.{map_disk, is_terminal}

pub data Loaded : Type 0 where
  found : Run → Loaded
  absent broken : Loaded

-- No worktree activity is `none`; otherwise the files and the time of the last change. A nil probe
-- for processes is `none`.
pub record World : Type 0 where
  pub job : String → Option JobRecord
  pub job_of_run : String → String → Option JobRecord
  pub write_info : String → Option WriteInfo
  pub activity : String → Option (ℕ × ℕ)
  pub authoring : String → String → Option AuthoringInfo
  pub reads : String → String → ℕ → Loaded
  pub pid_alive : Option (ℤ → Bool)
  pub now : ℕ
  pub files : Files

-- A mode of `none` is the empty one, of a run without a job.
pub record Resolved : Type 0 where
  pub runs_dir : String
  pub run_id : String
  pub job_id : String
  pub mode : Option JobMode
  pub pid : ℤ
  pub has_job : Bool
  pub worktree : String
  pub branch : String
  pub job_status : Status
  pub started_at : ℕ
  pub error_message : String
  pub error_code : String

pub record Input : Type 0 where
  pub job_id : String
  pub run_id : String
  pub cwd : String
  pub wait : Bool
  pub include_results : Bool
  pub from_start : Bool

unfoldable pub of_record : JobRecord → Resolved
of_record rec = record {
  runs_dir = rec.runs_dir;
  run_id = rec.run_id;
  job_id = rec.job_id;
  mode = some rec.mode;
  pid = rec.pid;
  has_job = true;
  worktree = rec.worktree_path;
  branch = rec.branch;
  job_status = rec.status;
  started_at = rec.started_at;
  error_message = rec.error_message;
  error_code = rec.error_code;
}

unfoldable pub outside : String → String → Resolved
outside runs_dir run_id = record {
  runs_dir = runs_dir;
  run_id = run_id;
  job_id = "";
  mode = none;
  pid = pos 0;
  has_job = false;
  worktree = "";
  branch = "";
  job_status = other "";
  started_at = 0;
  error_message = "";
  error_code = "";
}

-- A run id with a directory that validation has resolved.
unfoldable pub by_run_id : World → String → String → Resolved
unfolding of_record outside
by_run_id w cwd run_id = elim (w.job_of_run run_id cwd) [
  | none ↦ outside (w.files.runs_dir cwd) run_id
  | some rec ↦ record (of_record rec) {
    runs_dir = if same rec.runs_dir "" then w.files.runs_dir cwd else rec.runs_dir;
    run_id = run_id;
  }
]

-- `none` is an error: an unknown job, no target, or a directory that validation refuses.
unfoldable pub resolve_target : World → Input → Option Resolved
unfolding of_record by_run_id
resolve_target w input =
    if not (same input.job_id "")
    then elim (w.job input.job_id) [ none ↦ none | some rec ↦ some (of_record rec) ]
    else if same input.run_id "" || same input.cwd ""
    then none
    else elim (validate_cwd w.files input.cwd) [
      | none ↦ none
      | some cwd ↦ some (by_run_id w cwd input.run_id)
    ]

unfoldable pub delta_key : Resolved → String
delta_key tgt =
    if same tgt.job_id ""
    then Prim.Native.String.◌++◌ tgt.runs_dir (Prim.Native.String.◌++◌ "/" tgt.run_id)
    else tgt.job_id

abbrev pub writes : Option JobMode → Bool
writes (some mode) = is_write mode
writes none = false

unfoldable pub pid_is_alive : World → Resolved → Bool
pid_is_alive w tgt =
    if not tgt.has_job || same_int tgt.pid (pos 0)
    then true
    else elim w.pid_alive [ none ↦ true | some alive ↦ alive tgt.pid ]

unfoldable pub worktree_last : World → Resolved → Option (ℕ × ℕ)
worktree_last w tgt = if writes tgt.mode && tgt.has_job then w.activity tgt.job_id else none

-- A change within the threshold of now, on either side.
unfoldable pub worktree_active : ℕ → Option (ℕ × ℕ) → Bool
worktree_active now none = false
worktree_active now (some (files, last)) = leb (abs (sub_time now last)) stale_threshold

-- The loads after the one that found the file broken.
unfoldable pub retry : ℕ → ℕ → (ℕ → Loaded) → Loaded
retry zero i reads = broken
retry (suc n) i reads =
    let rest = retry n (suc i) reads in
    elim (reads i) [ broken ↦ rest | found run ↦ found run | absent ↦ absent ]

abbrev pub grace_retries : ℕ
grace_retries = 4

unfoldable pub load_with_grace : Status → (ℕ → Loaded) → Loaded
unfolding retry
load_with_grace job_status reads = elim (reads 0) [
  | found run ↦ found run
  | absent ↦ absent
  | broken ↦ if is_terminal job_status then broken else retry grace_retries 1 reads
]
