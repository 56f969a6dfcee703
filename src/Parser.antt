-- ===== src/Parser.antt =====
-- internal/parser/parser.go: the stream of a `pi -p --mode json` process, line by line.
pub mod Summary
use pi_mcp.Prelude.{
  ℕ, Bool, true, false, String, Option, none, some, List, [], ◌∷◌, ◌==◌, same, if◌then◌else◌,
}
use pi_mcp.Config.{err_no_workflow_run}
use pi_mcp.Model.{Bytes}

pub record ContentBlock : Type 0 where
  pub type_name : String
  pub text : String

-- `result` is the content of the tool's result.
pub record StreamEvent : Type 0 where
  pub type_name : String
  pub id : String
  pub tool_name : String
  pub is_error : Bool
  pub result : Option (List ContentBlock)

pub record Result : Type 0 where
  pub session_id : String
  pub workflow_found : Bool
  pub is_error : Bool
  pub raw_text : String

abbrev pub no_result : Result
no_result = record { session_id = ""; workflow_found = false; is_error = false; raw_text = "" }

-- How a read of `ReadBytes` ends: at a newline, at the end of the stream, or with an error.
pub data ReadEnd : Type 0 where
  newline eof : ReadEnd
  failed : String → ReadEnd

-- One turn of the loop: the error of the context, if it has ended, and what the read yields.
pub record Read : Type 0 where
  pub ctx_error : Option String
  pub raw : Bytes
  pub end : ReadEnd

-- `bytes.TrimRight` of one byte.
unfoldable pub trim_right : ℕ → Bytes → Bytes
trim_right c [] = []
trim_right c (b ∷ s) =
    let rest = trim_right c s in
    elim rest [ [] ↦ if b == c then [] else b ∷ [] | d ∷ ds ↦ b ∷ d ∷ ds ]

-- A later workflow event replaces the flag, and the text only if it has one.
unfoldable pub on_event : StreamEvent → Result → Result
on_event ev res =
    if same ev.type_name "session"
    then if same res.session_id "" then record res { session_id = ev.id } else res
    else if same ev.type_name "tool_execution_end"
    then if same ev.tool_name "workflow"
      then record res {
        workflow_found = true;
        is_error = ev.is_error;
        raw_text = elim ev.result [
          | none ↦ res.raw_text
          | some content ↦ elim content [ [] ↦ res.raw_text | block ∷ blocks ↦ block.text ]
        ];
      }
      else res
    else res

-- `decode` is encoding/json on a line; a malformed line is ignored.
module _ (decode : Bytes → Option StreamEvent) where
  unfoldable pub decode_line : Bytes → Option StreamEvent
  unfolding trim_right
  decode_line raw = elim (trim_right b'\r' (trim_right b'\n' raw)) [
    | [] ↦ none
    | b ∷ s ↦ decode (b ∷ s)
  ]

  unfoldable pub on_line : Bytes → Result → Result
  unfolding decode_line on_event
  on_line raw res = elim (decode_line raw) [ none ↦ res | some ev ↦ on_event ev res ]

  -- The result, and the error if there is one; `none` asks for a further read.
  unfoldable pub parse_from : Result → List Read → Option (Result × Option String)
  unfolding on_line
  parse_from res [] = none
  parse_from res (r ∷ reads) =
      let res' = on_line r.raw res in
      let rest = parse_from res' reads in
      elim r.ctx_error [
        | some msg ↦ some (res, some msg)
        | none ↦ elim r.end [
          | newline ↦ rest
          | eof ↦ some (res', none)
          | failed msg ↦ some (res', some msg)
        ]
      ]

  unfoldable pub parse_stream : List Read → Option (Result × Option String)
  unfolding parse_from
  parse_stream reads = parse_from no_result reads

unfoldable pub err : Result → String
err res = if res.workflow_found then "" else err_no_workflow_run
