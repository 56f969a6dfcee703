-- ===== src/Tests/Launches.antt =====
-- A stream of four lines under the launcher's observer, and its theorems.
use pi_mcp.Prelude.{
  ◌≡◌, refl, arith, true, false, String, Option, none, some, List, [], ◌∷◌, ◌++◌, ◌==◌,
  if◌then◌else◌, string_dec,
}
use mathlib.Core.Option
use native.Mathlib.Decide.{ℕ_discrete}
use pi_mcp.Prelude.Text.{codes}
use pi_mcp.Model.{Bytes}
use pi_mcp.Runner.Search.{has_prefix}
use pi_mcp.Parser.{decode_line, trim_right, StreamEvent, Result, eof, parse_stream}
use pi_mcp.Parser.Summary.{stream, events}
use pi_mcp.Launcher.{
  decode_authoring, AuthoringLine, Message, start, Step, line, write, observe_authoring,
  write_pending, append_preview,
}
use pi_mcp.Launcher.Session.{unless_empty, observed, parsed, session-observe_authoring}
use pi_mcp.Launcher.Outcome.{wait_error, verdict, wait_error-parse}
use pi_mcp.Launcher.Authoring.{Tells, authored, file-observe_authoring}

abbrev line_of : String → String → Bytes → Bytes → AuthoringLine
line_of type_name id message args = record {
  type_name = type_name;
  id = id;
  tool_name = "workflow";
  message = message;
  args = args;
}

abbrev stream_event : String → String → StreamEvent
stream_event type_name id = record {
  type_name = type_name;
  id = id;
  tool_name = "workflow";
  is_error = false;
  result = none;
}

-- The first letter of a line is its type.
abbrev decode : Bytes → Option AuthoringLine
decode [] = none
decode (b ∷ rest) =
    if b == b's'
    then some (line_of "session" "s1" [] [])
    else if b == b'm'
    then some (line_of "message_end" "" (b ∷ rest) [])
    else if b == b't'
    then some (line_of "tool_execution_start" "" [] (codes "{}"))
    else if b == b'x'
    then some (line_of "session" "s2" [] [])
    else none

-- The parser does not read every text that the observer reads.
abbrev decode_event : Bytes → Option StreamEvent
decode_event [] = none
decode_event (b ∷ rest) =
    if b == b's'
    then some (stream_event "session" "s1")
    else if b == b'm'
    then some (stream_event "message_end" "")
    else if b == b't'
    then some (stream_event "tool_execution_start" "")
    else none

abbrev decode_message : Bytes → Option Message
decode_message raw =
    some
      (record { role = "assistant"; content = record { text = codes "plan"; thinking = [] } ∷ [] })

abbrev read_lines : List Bytes
read_lines = (b's' ∷ b'\n' ∷ []) ∷ (b'm' ∷ b'\n' ∷ []) ∷ []

abbrev last_line : Bytes
last_line = b't' ∷ []

abbrev steps : List Step
steps =
    line (b's' ∷ b'\n' ∷ []) "10:00"
    ∷ line (b'm' ∷ b'\n' ∷ []) "10:01"
    ∷ write true
    ∷ line (b't' ∷ []) "10:02"
    ∷ []

agree :
    (b : Bytes) (ev : AuthoringLine) (ev' : StreamEvent)
    → decode b ≡ some ev
    → decode_event b ≡ some ev'
    → observed ev ≡ parsed ev'
agree [] ev ev' h k = absurd (cc h)
agree (b ∷ rest) ev ev' h k =
    let same_type : ev.type_name ≡ ev'.type_name = ground (arith, h, k) in
    let same_id : ev.id ≡ ev'.id = ground (arith, h, k) in cc (same_type, same_id)

session-observe_authoring_example :
    Option.map
      (λ (o : Result × Option String). unless_empty o.0.session_id)
      (parse_stream decode_event (stream decode_event read_lines last_line eof))
    ≡ some (observe_authoring decode decode_message "j1" "/runs" steps start).session
unfolding decode_line decode_authoring
session-observe_authoring_example =
    session-observe_authoring decode decode_message "j1" "/runs" decode_event agree steps read_lines
      last_line refl (refl, (refl, (refl, tt)))

wait_error-parse_example :
    Option.map wait_error (parse_stream decode_event (stream decode_event read_lines last_line eof))
    ≡ some (verdict (events decode_event (read_lines ++ (last_line ∷ []))))
wait_error-parse_example = wait_error-parse decode_event read_lines last_line

file-observe_authoring_example :
    Tells
      (authored decode decode_message "j1" "/runs" steps)
      (write_pending true (observe_authoring decode decode_message "j1" "/runs" steps start)).file
unfolding string_dec
file-observe_authoring_example =
    file-observe_authoring decode decode_message "j1" "/runs" refl (λ raw. ((refl, tt), tt)) steps
      refl

preview_of_two :
    (observe_authoring decode decode_message "j1" "/runs" steps start).preview
    ≡ codes "plan\n--- workflow script ---\n{}"
unfolding observe_authoring string_dec ℕ_discrete append_preview trim_right has_prefix
preview_of_two = refl
