-- ===== src/Parser/Summary.antt =====
-- The result of a whole stream, as a summary of its events.
use pi_mcp.Prelude.{
  ◌≡◌, refl, sym, ◌∙◌, ap, string_dec, inl, inr, Bool, false, ◌&&◌, ◌||◌, String, Option, none,
  some, List, [], ◌∷◌, ◌++◌, arith, same, if◌then◌else◌, Option-cases,
}
use pi_mcp.Model.{Bytes}
use pi_mcp.Parser.{
  StreamEvent, Result, no_result, ReadEnd, newline, eof, Read, on_event, decode_line, on_line,
  parse_from, parse_stream,
}

abbrev pub ends_workflow : StreamEvent → Bool
ends_workflow ev = same ev.type_name "tool_execution_end" && same ev.tool_name "workflow"

-- The id of the first session event that has one.
unfoldable pub first_session : List StreamEvent → String
first_session [] = ""
first_session (ev ∷ evs) =
    let rest = first_session evs in
    if same ev.type_name "session" then if same ev.id "" then rest else ev.id else rest

unfoldable pub some_workflow : List StreamEvent → Bool
some_workflow [] = false
some_workflow (ev ∷ evs) = ends_workflow ev || some_workflow evs

-- The flag of the last workflow event, or the given one.
unfoldable pub last_flag : Bool → List StreamEvent → Bool
last_flag flag [] = flag
last_flag flag (ev ∷ evs) = last_flag (if ends_workflow ev then ev.is_error else flag) evs

abbrev pub text_of : String → StreamEvent → String
text_of text ev = elim ev.result [
  | none ↦ text
  | some content ↦ elim content [ [] ↦ text | block ∷ blocks ↦ block.text ]
]

-- The text of the last workflow event that has one, or the given one.
unfoldable pub last_text : String → List StreamEvent → String
last_text text [] = text
last_text text (ev ∷ evs) = last_text (if ends_workflow ev then text_of text ev else text) evs

abbrev pub summary : Result → List StreamEvent → Result
summary res evs = record {
  session_id = if same res.session_id "" then first_session evs else res.session_id;
  workflow_found = res.workflow_found || some_workflow evs;
  is_error = last_flag res.is_error evs;
  raw_text = last_text res.raw_text evs;
}

-- No event has both types.
apart : (t : String) → t ≡ "session" → t ≡ "tool_execution_end" → ⊥
apart t p q = let e : ◌≡◌ {A = String} "session" "tool_execution_end" = sym p ∙ q in absurd (cc e)

summary-on_event :
    (ev : StreamEvent) (evs : List StreamEvent) (res : Result)
    → summary (on_event ev res) evs ≡ summary res (ev ∷ evs)
unfolding on_event first_session some_workflow last_flag last_text
summary-on_event ev evs res = ground (arith, apart ev.type_name)

module _ (decode : Bytes → Option StreamEvent) where
  abbrev pub events : List Bytes → List StreamEvent
  events [] = []
  events (l ∷ ls) = elim (decode_line decode l) [ none ↦ events ls | some ev ↦ ev ∷ events ls ]

  -- A stream of whole lines and a last read that ends it.
  abbrev pub stream : List Bytes → Bytes → ReadEnd → List Read
  stream [] last end = record { ctx_error = none; raw = last; end = end } ∷ []
  stream (l ∷ ls) last end =
      record { ctx_error = none; raw = l; end = newline } ∷ stream ls last end

  summary-on_line :
      (l : Bytes) (rest : List Bytes) (res : Result)
      → summary (on_line decode l res) (events rest) ≡ summary res (events (l ∷ rest))
  unfolding on_line
  summary-on_line l rest res = elim (Option-cases (decode_line decode l)) [
    | inl e ↦ rw (e, on_line, events) refl
    | inr (ev, e) ↦ rw (e, on_line, events) (summary-on_event ev (events rest) res)
  ]

  summary_end : (res : Result) → summary res [] ≡ res
  unfolding first_session some_workflow last_flag last_text
  summary_end res = ground arith

  parse_from_lem :
      (ls : List Bytes) (last : Bytes) (res : Result)
      → parse_from decode res (stream ls last eof)
        ≡ some (summary res (events (ls ++ (last ∷ []))), none)
  unfolding parse_from
  parse_from_lem [] last res =
      ap (λ r. some (r, none))
        (sym (summary_end (on_line decode last res)) ∙ summary-on_line last [] res)
  parse_from_lem (l ∷ ls) last res =
      parse_from_lem ls last (on_line decode l res)
      ∙ ap (λ r. some (r, none)) (summary-on_line l (ls ++ (last ∷ [])) res)

  -- A stream that is read to its end, while its context lasts, yields the id of its first session
  -- event that has one, whether it has a workflow event, the flag of the last one, and the last
  -- text that one of them has. The last line counts without its newline, and malformed lines count
  -- for nothing.
  pub parse_stream_lem :
      (ls : List Bytes) (last : Bytes)
      → let evs = events (ls ++ (last ∷ [])) in
        parse_stream decode (stream ls last eof)
        ≡ some (
          record {
            session_id = first_session evs;
            workflow_found = some_workflow evs;
            is_error = last_flag false evs;
            raw_text = last_text "" evs;
          },
          none,
        )
  unfolding parse_stream string_dec
  parse_stream_lem ls last = parse_from_lem ls last no_result
