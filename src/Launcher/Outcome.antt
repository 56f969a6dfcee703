-- ===== src/Launcher/Outcome.antt =====
-- The error of `wait` on a whole stream.
use pi_mcp.Prelude.{
  ◌≡◌, refl, Bool, true, false, ap, ◌∙◌, String, Option, none, some, List, [], ◌∷◌, ◌++◌, same,
  string_dec, if◌then◌else◌,
}
use mathlib.Core.Option
use pi_mcp.Config.{err_no_workflow_run}
use pi_mcp.Model.{Bytes}
use pi_mcp.Parser.{StreamEvent, Result, eof, parse_stream, err}
use pi_mcp.Parser.Summary.{events, stream, some_workflow, last_flag, last_text, parse_stream_lem}
use pi_mcp.Launcher.{compose_wait_error}

-- What `wait` returns from the outcome that the parser's goroutine sends.
abbrev pub wait_error : Result × Option String → Option String
wait_error (res, e) = compose_wait_error res e

-- The error that the events of a stream call for.
abbrev pub verdict : List StreamEvent → Option String
verdict evs =
    if some_workflow evs
    then if last_flag false evs
      then some
          (if same (last_text "" evs) "" then "workflow reported an error" else last_text "" evs)
      else none
    else some err_no_workflow_run

compose_wait_error_lem :
    (res : Result)
    → compose_wait_error res none ≡ (
        if res.workflow_found
        then if res.is_error
          then some (if same res.raw_text "" then "workflow reported an error" else res.raw_text)
          else none
        else some err_no_workflow_run)
unfolding compose_wait_error err string_dec
compose_wait_error_lem res = by_found res.workflow_found
  where
    by_found :
        (found : Bool)
        → compose_wait_error (record res { workflow_found = found }) none ≡ (
            if found
            then if res.is_error
              then some
                  (if same res.raw_text "" then "workflow reported an error" else res.raw_text)
              else none
            else some err_no_workflow_run)
    by_found true = refl
    by_found false = refl

-- On a stream that is read to its end while its context lasts, `wait` returns no error exactly if
-- the stream has a workflow event and the last one is not an error; else it returns the code for no
-- workflow, or the last text of a workflow event, or a default where that is empty.
pub wait_error-parse :
    (decode : Bytes → Option StreamEvent) (ls : List Bytes) (last : Bytes)
    → Option.map wait_error (parse_stream decode (stream decode ls last eof))
      ≡ some (verdict (events decode (ls ++ (last ∷ []))))
wait_error-parse decode ls last =
    ap (Option.map wait_error) (parse_stream_lem decode ls last)
    ∙ ap some (compose_wait_error_lem _)
