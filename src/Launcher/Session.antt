-- ===== src/Launcher/Session.antt =====
-- The session that the observer pushes and the one that the parser finds in the same stream.
use pi_mcp.Prelude.{
  ◌≡◌, refl, sym, ap, ◌∙◌, inl, inr, string_dec, Bool, true, false, not, All, ◌&&◌, String, Option,
  none, some, List, [], ◌∷◌, ◌++◌, arith, same, if◌then◌else◌, Option-cases,
}
use mathlib.Core.Option
use mathlib.Core.Option.{some-injective}
use pi_mcp.Model.{Bytes}
use pi_mcp.Parser.{StreamEvent, Result, eof, parse_stream, decode_line, trim_right}
use pi_mcp.Parser.Summary.{events, stream, first_session, parse_stream_lem}
use pi_mcp.Launcher.{
  AuthoringLine, Message, Observer, start, is_pushed, Step, line, write, observe_authoring,
  observe_event, observe_line, write_pending, snapshot, add_text, on_text, on_script,
  decode_authoring,
}

-- An empty id is no session.
abbrev pub unless_empty : String → Option String
unless_empty id = if same id "" then none else some id

abbrev pub lines_of : List Step → List Bytes
lines_of [] = []
lines_of (line raw now ∷ steps) = raw ∷ lines_of steps
lines_of (write ok ∷ steps) = lines_of steps

abbrev pub is_read {ℓ} : {A : Type ℓ} → Option A → Bool
is_read none = false
is_read (some a) = true

abbrev pub observed : AuthoringLine → String × String
observed ev = (ev.type_name, ev.id)

abbrev pub parsed : StreamEvent → String × String
parsed ev = (ev.type_name, ev.id)

-- What was pushed before, or the first id of the events.
abbrev pub or_first : Option String → String → Option String
or_first none id = unless_empty id
or_first (some pushed) id = some pushed

session-write : (ok : Bool) (s : Observer) → (write_pending ok s).session ≡ s.session
unfolding write_pending
session-write ok s = elim (Option-cases s.pending) [ inl e ↦ rw e refl | inr (info, e) ↦ rw e refl ]

module _ (decode : Bytes → Option AuthoringLine) (decode_message : Bytes → Option Message)
    (job_id runs_dir : String) where
  session-snapshot :
      (done : Bool) (now : String) (s : Observer)
      → (snapshot decode decode_message job_id runs_dir done now s).session ≡ s.session
  unfolding snapshot
  session-snapshot done now s = ground arith

  session-event :
      (ev : AuthoringLine) (now : String) (s : Observer)
      → (observe_event decode decode_message job_id runs_dir ev now s).session ≡ (
          if same ev.type_name "session" && (not (is_pushed s.session) && not (same ev.id ""))
          then some ev.id
          else s.session)
  unfolding observe_event on_text on_script add_text
  session-event ev now s = grind (arith, session-snapshot)

  module _ (decode_event : Bytes → Option StreamEvent)
      (agree : (b : Bytes) (ev : AuthoringLine) (ev' : StreamEvent)
        → decode b ≡ some ev
        → decode_event b ≡ some ev'
        → observed ev ≡ parsed ev') where
    -- A line that both decoders read or neither does.
    abbrev pub IsShared : Bytes → Type 0
    IsShared raw =
        is_read (decode_authoring decode decode_message job_id runs_dir raw)
        ≡ is_read (decode_line decode_event raw)

    agree_on :
        (t : Bytes) (o : Option AuthoringLine) (o' : Option StreamEvent)
        → decode t ≡ o
        → decode_event t ≡ o'
        → is_read o ≡ is_read o'
        → Option.map observed o ≡ Option.map parsed o'
    agree_on t none none e e' h = refl
    agree_on t none (some ev') e e' h = absurd (cc h)
    agree_on t (some ev) none e e' h = absurd (cc h)
    agree_on t (some ev) (some ev') e e' h = ap some (agree t ev ev' e e')

    agree_line :
        (raw : Bytes)
        → IsShared raw
        → Option.map observed (decode_authoring decode decode_message job_id runs_dir raw)
          ≡ Option.map parsed (decode_line decode_event raw)
    unfolding decode_authoring decode_line
    agree_line raw = by_text (trim_right b'\r' (trim_right b'\n' raw))
      where
        by_text :
            (t : Bytes)
            → is_read (elim t as (λ _. Option AuthoringLine) [ [] ↦ none | b ∷ s ↦ decode (b ∷ s) ])
              ≡ is_read
                  (elim t as (λ _. Option StreamEvent) [ [] ↦ none | b ∷ s ↦ decode_event (b ∷ s) ])
            → Option.map observed (elim t [ [] ↦ none | b ∷ s ↦ decode (b ∷ s) ])
              ≡ Option.map parsed (elim t [ [] ↦ none | b ∷ s ↦ decode_event (b ∷ s) ])
        by_text [] h = refl
        by_text (b ∷ s) h = agree_on (b ∷ s) (decode (b ∷ s)) (decode_event (b ∷ s)) refl refl h

    first-event :
        (ev : StreamEvent) (evs : List StreamEvent) (p : Option String)
        → or_first
            (if same ev.type_name "session" && (not (is_pushed p) && not (same ev.id ""))
              then some ev.id
              else p)
            (first_session evs)
          ≡ or_first p (first_session (ev ∷ evs))
    unfolding first_session
    first-event ev evs none = ground arith
    first-event ev evs (some q) = ground arith

    abbrev step_of : Option AuthoringLine → String → Observer → Observer
    step_of o now s = elim o [
      | none ↦ s
      | some ev ↦ observe_event decode decode_message job_id runs_dir ev now s
    ]

    abbrev with_event : Option StreamEvent → List StreamEvent → List StreamEvent
    with_event o evs = elim o [ none ↦ evs | some ev ↦ ev ∷ evs ]

    event_cases :
        (now : String) (evs : List StreamEvent) (s : Observer) (o : Option AuthoringLine)
        (o' : Option StreamEvent)
        → Option.map observed o ≡ Option.map parsed o'
        → or_first (step_of o now s).session (first_session evs)
          ≡ or_first s.session (first_session (with_event o' evs))
    event_cases now evs s none none h = refl
    event_cases now evs s none (some ev) h = absurd (cc h)
    event_cases now evs s (some ev) none h = absurd (cc h)
    event_cases now evs s (some ev) (some ev') h =
        let names : observed ev ≡ parsed ev' = some-injective _ _ h in
        let e : ev.type_name ≡ ev'.type_name = ap (λ (n : String × String). n.0) names in
        let e' : ev.id ≡ ev'.id = ap (λ (n : String × String). n.1) names in
        ap (λ p. or_first p (first_session evs)) (session-event ev now s)
        ∙ ap
            (λ (n : String × String).
              or_first
                (if same n.0 "session" && (not (is_pushed s.session) && not (same n.1 ""))
                  then some n.1
                  else s.session)
                (first_session evs))
            names
        ∙ first-event ev' evs s.session

    session-steps :
        (steps : List Step) (s : Observer)
        → All IsShared (lines_of steps)
        → (observe_authoring decode decode_message job_id runs_dir steps s).session
          ≡ or_first s.session (first_session (events decode_event (lines_of steps)))
    unfolding observe_authoring observe_line first_session string_dec
    session-steps [] s shared = elim (Option-cases s.session) [
      | inl e ↦ rw e refl
      | inr (id, e) ↦ rw e refl
    ]
    session-steps (line raw now ∷ steps) s (here, shared) =
        session-steps steps (observe_line decode decode_message job_id runs_dir raw now s) shared
        ∙ event_cases now (events decode_event (lines_of steps)) s
            (decode_authoring decode decode_message job_id runs_dir raw)
            (decode_line decode_event raw) (agree_line raw here)
    session-steps (write ok ∷ steps) s shared =
        session-steps steps (write_pending ok s) shared
        ∙ ap (λ p. or_first p (first_session (events decode_event (lines_of steps))))
            (session-write ok s)

    -- Of a stream each of whose lines both decoders read or neither does, where two readings of one
    -- text have the same type and id: the session that the observer has pushed once it has read the
    -- lines of the whole stream, whenever the writer took a snapshot in between, is the id that the
    -- parser finds in that stream; nothing is pushed if there is none.
    pub session-observe_authoring :
        (steps : List Step) (ls : List Bytes) (last : Bytes)
        → lines_of steps ≡ ls ++ (last ∷ [])
        → All IsShared (lines_of steps)
        → Option.map
            (λ (o : Result × Option String). unless_empty o.0.session_id)
            (parse_stream decode_event (stream decode_event ls last eof))
          ≡ some (observe_authoring decode decode_message job_id runs_dir steps start).session
    session-observe_authoring steps ls last h shared =
        ap (Option.map (λ (o : Result × Option String). unless_empty o.0.session_id))
          (parse_stream_lem decode_event ls last)
        ∙ ap some (
            ap (λ l. unless_empty (first_session (events decode_event l))) (sym h)
            ∙ sym (session-steps steps start shared))
