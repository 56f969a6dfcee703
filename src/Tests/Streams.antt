-- ===== src/Tests/Streams.antt =====
-- A stream of three lines, at the theorem about the parser.
use pi_mcp.Prelude.{
  ◌≡◌, true, false, String, Option, none, some, List, [], ◌∷◌, ◌++◌, ◌==◌, if◌then◌else◌,
}
use pi_mcp.Model.{Bytes}
use pi_mcp.Parser.{StreamEvent, eof, parse_stream}
use pi_mcp.Parser.Summary.{
  first_session, some_workflow, last_flag, last_text, events, stream, parse_stream_lem,
}

abbrev event : String → String → StreamEvent
event type_name id = record {
  type_name = type_name;
  id = id;
  tool_name = "workflow";
  is_error = true;
  result = some (record { type_name = "text"; text = "boom" } ∷ []);
}

-- A line is malformed unless it starts with one of two letters.
abbrev decode : Bytes → Option StreamEvent
decode [] = none
decode (b ∷ rest) =
    if b == b's'
    then some (event "session" "s1")
    else if b == b'w'
    then some (event "tool_execution_end" "")
    else none

abbrev lines : List Bytes
lines = (b's' ∷ b'\n' ∷ []) ∷ (b'?' ∷ b'\n' ∷ []) ∷ []

parse_stream_lem_example :
    let evs = events decode (lines ++ ((b'w' ∷ []) ∷ [])) in
    parse_stream decode (stream decode lines (b'w' ∷ []) eof)
    ≡ some (
      record {
        session_id = first_session evs;
        workflow_found = some_workflow evs;
        is_error = last_flag false evs;
        raw_text = last_text "" evs;
      },
      none,
    )
parse_stream_lem_example = parse_stream_lem decode lines (b'w' ∷ [])
