-- ===== src/Launcher.antt =====
-- internal/app/launcher.go: the launcher of pi. One goroutine parses the stream of the process, one
-- observes a copy of it for the session and the authoring, and one writes the authoring file.
pub mod Preview
pub mod Session
pub mod Authoring
pub mod Outcome
use Prim.Native.String
use pi_mcp.Prelude.{
  ℕ, ◌+◌, ◌-◌, Bool, true, false, not, ◌&&◌, String, Option, none, some, List, [], ◌∷◌, ◌++◌, leb,
  same, if◌then◌else◌, length, drop,
}
use pi_mcp.Prelude.Text.{codes}
use pi_mcp.Config.{max_authoring_preview_bytes, orchestrator_model}
use pi_mcp.Model.{Bytes, AuthoringInfo}
use pi_mcp.RunStore.Preview.{is_continuation}
use pi_mcp.Runner.Search.{has_prefix}
use pi_mcp.Parser.{Result, err, trim_right}

-- The error of `wait`, if there is one.
unfoldable pub compose_wait_error : Result → Option String → Option String
unfolding err
compose_wait_error res (some msg) = some (Prim.Native.String.◌++◌ "pi stream parse: " msg)
compose_wait_error res none =
    if not (same (err res) "")
    then some (err res)
    else if res.is_error
    then some (if same res.raw_text "" then "workflow reported an error" else res.raw_text)
    else none

unfoldable pub skip_continuation : Bytes → Bytes
skip_continuation [] = []
skip_continuation (b ∷ s) =
    let rest = skip_continuation s in if is_continuation b then rest else b ∷ s

-- The end of a text, cut between two runes.
unfoldable pub cut_front : Bytes → Bytes
unfolding skip_continuation
cut_front buf =
    if leb (length buf) max_authoring_preview_bytes
    then buf
    else skip_continuation (drop (length buf - max_authoring_preview_bytes) buf)

unfoldable pub append_preview : Bytes → Bytes → Bytes
unfolding cut_front
append_preview buf s = cut_front (buf ++ s)

pub record MessageBlock : Type 0 where
  pub text : Bytes
  pub thinking : Bytes

pub record Message : Type 0 where
  pub role : String
  pub content : List MessageBlock

unfoldable pub content_text : List MessageBlock → Bytes
content_text [] = []
content_text (c ∷ rest) = c.text ++ (c.thinking ++ content_text rest)

-- A message and arguments are raw JSON, empty where the line has none.
pub record AuthoringLine : Type 0 where
  pub type_name : String
  pub id : String
  pub tool_name : String
  pub message : Bytes
  pub args : Bytes

abbrev pub present : Bytes → Bool
present [] = false
present (b ∷ s) = true

abbrev pub script_header : Bytes
script_header = codes "\n--- workflow script ---\n"

-- `session` is what was sent on the session's channel: a send is the first one, and it is `pushed`.
-- `pending` is the channel of snapshots, which holds one at most, and `file` the authoring file.
pub record Observer : Type 0 where
  pub session : Option String
  pub preview : Bytes
  pub chars : ℕ
  pub pending : Option AuthoringInfo
  pub file : Option AuthoringInfo

abbrev pub start : Observer
start = record { session = none; preview = []; chars = 0; pending = none; file = none }

abbrev pub is_pushed : Option String → Bool
is_pushed none = false
is_pushed (some id) = true

-- A line that the observer reads, with the time of its snapshot, or a snapshot that the writer takes
-- from the channel, and whether the write of it succeeds.
pub data Step : Type 0 where
  line : Bytes → String → Step
  write : Bool → Step

unfoldable pub add_text : Bytes → Observer → Observer
unfolding append_preview
add_text txt s = record s { chars = s.chars + length txt; preview = append_preview s.preview txt }

unfoldable pub write_pending : Bool → Observer → Observer
write_pending ok s = elim s.pending [
  | none ↦ s
  | some info ↦ record s { pending = none; file = if ok then some info else s.file }
]

-- A job without an id or a directory has no file. The two decoders are encoding/json.
module _ (decode : Bytes → Option AuthoringLine) (decode_message : Bytes → Option Message)
    (job_id runs_dir : String) where
  unfoldable pub assistant_text : Bytes → Bytes
  unfolding content_text
  assistant_text raw = elim (decode_message raw) [
    | none ↦ []
    | some m ↦ if same m.role "assistant" then content_text m.content else []
  ]

  abbrev pub persists : Bool
  persists = not (same job_id "") && not (same runs_dir "")

  -- A stale snapshot in the channel is dropped first.
  unfoldable pub snapshot : Bool → String → Observer → Observer
  snapshot done now s =
      if persists
      then record s {
        pending = some (record {
          job_id = job_id;
          model = orchestrator_model;
          chars = s.chars;
          preview = s.preview;
          done = done;
          updated_at = now;
        });
      }
      else s

  -- A message adds its text, unless it has none.
  unfoldable pub on_text : Bytes → String → Observer → Observer
  unfolding add_text snapshot
  on_text txt now s = if present txt then snapshot false now (add_text txt s) else s

  unfoldable pub on_script : Bytes → String → Observer → Observer
  unfolding add_text snapshot
  on_script args now s =
      snapshot true now (if present args then add_text (script_header ++ args) s else s)

  unfoldable pub observe_event : AuthoringLine → String → Observer → Observer
  unfolding assistant_text on_text on_script
  observe_event ev now s =
      if same ev.type_name "session" && (not (is_pushed s.session) && not (same ev.id ""))
      then record s { session = some ev.id }
      else if has_prefix (codes "message") (codes ev.type_name) && present ev.message
      then on_text (assistant_text ev.message) now s
      else if same ev.type_name "tool_execution_start" && same ev.tool_name "workflow"
      then on_script ev.args now s
      else s

  unfoldable pub decode_authoring : Bytes → Option AuthoringLine
  decode_authoring raw = elim (trim_right b'\r' (trim_right b'\n' raw)) [
    | [] ↦ none
    | b ∷ t ↦ decode (b ∷ t)
  ]

  unfoldable pub observe_line : Bytes → String → Observer → Observer
  unfolding decode_authoring observe_event
  observe_line raw now s = elim (decode_authoring raw) [
    | none ↦ s
    | some ev ↦ observe_event ev now s
  ]

  -- The loop and the writer, step by step in any order.
  unfoldable pub observe_authoring : List Step → Observer → Observer
  unfolding observe_line write_pending
  observe_authoring [] s = s
  observe_authoring (line raw now ∷ steps) s = observe_authoring steps (observe_line raw now s)
  observe_authoring (write ok ∷ steps) s = observe_authoring steps (write_pending ok s)

  -- The end of the stream: the writer drains its channel, and the file is deleted.
  unfoldable pub stop_observing : Bool → Observer → Observer
  unfolding write_pending
  stop_observing ok s = if persists then record (write_pending ok s) { file = none } else s
