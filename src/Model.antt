-- ===== src/Model.antt =====
-- internal/model/model.go: the run file, the job record and the outputs of the tools.
-- A status is one of the strings that the code compares, or another string: the run file, the job
-- record and the outputs convert between their string types without a check. A json.RawMessage is
-- the list of its bytes; a float64 is its bit pattern, which is only copied. A mode is one of the two
-- that the validation of a job lets through.
use pi_mcp.Prelude.{ℕ, Bool, String, Option, List}
use pi_mcp.Prelude.Clock.{ℤ}

pub data Status : Type 0 where
  queued running paused stalled completed failed aborted done error : Status
  other : String → Status

pub data JobMode : Type 0 where
  read write : JobMode

abbrev pub Bytes : Type 0
Bytes = List ℕ

pub record Agent : Type 0 where
  pub id : ℤ
  pub call_index : ℤ
  pub label : String
  pub model : String
  pub phase : String
  pub prompt : String
  pub status : Status
  pub result_preview : String
  pub tokens : ℤ
  pub started_at : Option ℕ
  pub ended_at : Option ℕ
  pub error : Option String

pub record JournalEntry : Type 0 where
  pub index : ℤ
  pub hash : String
  pub result : Bytes

pub record TokenUsage : Type 0 where
  pub input : ℤ
  pub output : ℤ
  pub total : ℤ
  pub cost : ℕ
  pub cache_read : ℤ
  pub cache_write : ℤ

pub record Run : Type 0 where
  pub run_id : String
  pub session_id : String
  pub workflow_name : String
  pub status : Status
  pub current_phase : Option String
  pub phases : List String
  pub agents : List Agent
  pub journal : List JournalEntry
  pub logs : List String
  pub result : Bytes
  pub started_at : Option ℕ
  pub completed_at : Option ℕ
  pub updated_at : Option ℕ
  pub duration_ms : Option ℤ
  pub token_usage : Option TokenUsage
  pub args : Bytes

pub record AuthoringInfo : Type 0 where
  pub job_id : String
  pub model : String
  pub chars : ℕ
  pub preview : Bytes
  pub done : Bool
  pub updated_at : String

pub record JobRecord : Type 0 where
  pub job_id : String
  pub run_id : String
  pub session_id : String
  pub mode : JobMode
  pub cwd : String
  pub runs_dir : String
  pub worktree_path : String
  pub branch : String
  pub pid : ℤ
  pub status : Status
  pub started_at : ℕ
  pub error_code : String
  pub error_message : String
  pub run_snapshot : Bytes

-- `Any` is what encoding/json decodes a result into.
pub record StatusEvent (Any : Type 0) : Type 0 where
  pub label : String
  pub model : String
  pub phase : String
  pub status : Status
  pub error : String
  pub result : Option Any
  pub preview : Bytes
  pub truncated : Bool

pub record IntermediateResult (Any : Type 0) : Type 0 where
  pub label : String
  pub model : String
  pub phase : String
  pub result : Option Any
  pub preview : Bytes
  pub truncated : Bool

pub record Progress : Type 0 where
  pub elapsed_seconds : ℕ
  pub worktree_files : ℕ
  pub last_activity_seconds : Option ℕ

pub record WriteInfo : Type 0 where
  pub branch : String
  pub worktree_path : String
  pub diff_stat : String
  pub files_changed : List String

abbrev pub is_write : JobMode → Bool
is_write write = Bool.true
is_write read = Bool.false

abbrev pub is_aborted : Status → Bool
is_aborted aborted = Bool.true
is_aborted _ = Bool.false
