-- ===== src/Launcher/Authoring.antt =====
-- What the authoring file says of the stream so far.
use pi_mcp.Prelude.{
  ◌+◌, ◌≡◌, refl, sym, ap, ◌∙◌, Bool, true, false, not, ◌&&◌, String, Option, none, some, List, [],
  ◌∷◌, ◌++◌, arith, same, if◌then◌else◌, length, length-append, if_cases, string_dec, subst, All,
}
use mathlib.Core.List.{append-nil, append_assoc}
use pi_mcp.Prelude.Text.{codes}
use pi_mcp.Model.{Bytes, AuthoringInfo}
use pi_mcp.Runner.Search.{has_prefix}
use pi_mcp.Launcher.{
  AuthoringLine, Message, MessageBlock, content_text, Observer, start, present, script_header, Step,
  line, write, cut_front, add_text, append_preview, assistant_text, snapshot, on_text, on_script,
  observe_event, observe_line, write_pending, decode_authoring, observe_authoring, persists,
  is_pushed,
}
use pi_mcp.Launcher.Preview.{StartsRune, cut_front_again}

-- The name of a session is neither that of a message nor that of a tool.
session_apart :
    (t : String)
    → same t "session" ≡ true
    → (has_prefix (codes "message") (codes t) ≡ false) × (same t "tool_execution_start" ≡ false)
unfolding has_prefix string_dec
session_apart t h =
    let e : t ≡ "session" = ground arith in
    subst
      (λ u.
        (has_prefix (codes "message") (codes u) ≡ false) × (same u "tool_execution_start" ≡ false))
      (sym e) (refl, refl)

StartsRune-append : (s t : Bytes) → StartsRune s → StartsRune t → StartsRune (s ++ t)
StartsRune-append [] t h k = k
StartsRune-append (b ∷ s) t h k = h

-- The texts of a block, as JSON decodes them.
abbrev pub BlockStartsRune : MessageBlock → Type 0
BlockStartsRune c = StartsRune c.text × StartsRune c.thinking

content_text-StartsRune :
    (cs : List MessageBlock) → All BlockStartsRune cs → StartsRune (content_text cs)
unfolding content_text
content_text-StartsRune [] h = tt
content_text-StartsRune (c ∷ cs) ((x, y), h) =
    StartsRune-append c.text _ x (StartsRune-append c.thinking _ y (content_text-StartsRune cs h))

-- The blocks of a message that may not decode.
abbrev pub blocks_of : Option Message → List MessageBlock
blocks_of none = []
blocks_of (some m) = m.content

abbrev pub all_written : List Step → Bool
all_written [] = true
all_written (line raw now ∷ steps) = all_written steps
all_written (write ok ∷ steps) = ok && all_written steps

-- Before the first snapshot nothing was authored; a snapshot has the length of what was, and its
-- end.
abbrev pub Tells : Bytes → Option AuthoringInfo → Type 0
Tells txt none = txt ≡ []
Tells txt (some info) = (info.chars ≡ length txt) × (info.preview ≡ cut_front txt)

module _ (decode : Bytes → Option AuthoringLine) (decode_message : Bytes → Option Message)
    (job_id runs_dir : String) where
  abbrev text_in : Option Message → Bytes
  text_in o = elim o [
    | none ↦ []
    | some m ↦ if same m.role "assistant" then content_text m.content else []
  ]

  abbrev text_of : Bytes → Bytes
  text_of = assistant_text decode decode_message job_id runs_dir

  -- What a line adds to the authoring: the text of an assistant's message, or the script under its
  -- header.
  unfoldable pub authored_by : AuthoringLine → Bytes
  authored_by ev =
      if has_prefix (codes "message") (codes ev.type_name) && present ev.message
      then text_of ev.message
      else if same ev.type_name "tool_execution_start" && same ev.tool_name "workflow"
      then (if present ev.args then script_header ++ ev.args else [])
      else []

  abbrev pub authored_in : Option AuthoringLine → Bytes
  authored_in o = elim o [ none ↦ [] | some ev ↦ authored_by ev ]

  abbrev after_line : Option AuthoringLine → String → Observer → Observer
  after_line o now s = elim o [
    | none ↦ s
    | some ev ↦ observe_event decode decode_message job_id runs_dir ev now s
  ]

  abbrev pub authored : List Step → Bytes
  authored [] = []
  authored (line raw now ∷ steps) =
      authored_in (decode_authoring decode decode_message job_id runs_dir raw) ++ authored steps
  authored (write ok ∷ steps) = authored steps

  abbrev latest : Observer → Option AuthoringInfo
  latest s = elim s.pending [ none ↦ s.file | some info ↦ some info ]

  abbrev UpTo : Bytes → Observer → Type 0
  UpTo txt s = (s.chars ≡ length txt) × (s.preview ≡ cut_front txt) × Tells txt (latest s)

  write-UpTo : (txt : Bytes) (s : Observer) → UpTo txt s → UpTo txt (write_pending true s)
  unfolding write_pending
  write-UpTo txt s h = by_pending s.pending s h
    where
      by_pending :
          (o : Option AuthoringInfo) (r : Observer)
          → UpTo txt (record r { pending = o })
          → UpTo txt (write_pending true (record r { pending = o }))
      by_pending none r k = k
      by_pending (some info) r k = k

  latest-write : (s : Observer) → latest s ≡ (write_pending true s).file
  unfolding write_pending
  latest-write s = by_pending s.pending
    where
      by_pending :
          (o : Option AuthoringInfo)
          → latest (record s { pending = o }) ≡ (write_pending true (record s { pending = o })).file
      by_pending none = refl
      by_pending (some info) = refl

  start-UpTo : UpTo [] start
  unfolding cut_front
  start-UpTo = (refl, refl, refl)

  module _ (persist : persists decode decode_message job_id runs_dir ≡ true) where
    snapshot-UpTo :
        (done : Bool) (now : String) (txt : Bytes) (s : Observer)
        → s.chars ≡ length txt
        → s.preview ≡ cut_front txt
        → UpTo txt (snapshot decode decode_message job_id runs_dir done now s)
    unfolding snapshot
    snapshot-UpTo done now txt s c p = rw persist (c, p, (c, p))

    add_text-UpTo :
        (done : Bool) (now : String) (t txt : Bytes) (s : Observer)
        → StartsRune t
        → UpTo txt s
        → UpTo (txt ++ t) (snapshot decode decode_message job_id runs_dir done now (add_text t s))
    unfolding add_text append_preview
    add_text-UpTo done now t txt s h (c, p, _) =
        snapshot-UpTo done now (txt ++ t) (add_text t s)
          (ap (λ n. n + length t) c ∙ sym (length-append txt t))
          (ap (λ b. cut_front (b ++ t)) p ∙ cut_front_again txt t h)

    text-UpTo :
        (t : Bytes) (now : String) (txt : Bytes) (s : Observer)
        → StartsRune t
        → UpTo txt s
        → UpTo (txt ++ t) (on_text decode decode_message job_id runs_dir t now s)
    unfolding on_text
    text-UpTo [] now txt s h u = rw (append-nil txt) u
    text-UpTo (b ∷ t) now txt s h u = add_text-UpTo false now (b ∷ t) txt s h u

    script-UpTo :
        (args : Bytes) (now : String) (txt : Bytes) (s : Observer)
        → UpTo txt s
        → UpTo
            (txt ++ (if present args then script_header ++ args else []))
            (on_script decode decode_message job_id runs_dir args now s)
    unfolding on_script
    script-UpTo [] now txt s (c, p, l) = rw (append-nil txt) (snapshot-UpTo true now txt s c p)
    script-UpTo (b ∷ t) now txt s u = add_text-UpTo true now (script_header ++ (b ∷ t)) txt s refl u

    module _ (utf8 : (raw : Bytes) → All BlockStartsRune (blocks_of (decode_message raw))) where
      text_of-StartsRune : (raw : Bytes) → StartsRune (text_of raw)
      unfolding assistant_text
      text_of-StartsRune raw = by_message (decode_message raw) (utf8 raw)
        where
          by_message :
              (o : Option Message) → All BlockStartsRune (blocks_of o) → StartsRune (text_in o)
          by_message none h = tt
          by_message (some m) h =
              if_cases StartsRune (same m.role "assistant") _ _
                (λ _. content_text-StartsRune m.content h) (λ _. tt)

      event-UpTo :
          (ev : AuthoringLine) (now : String) (txt : Bytes) (s : Observer)
          → UpTo txt s
          → UpTo
              (txt ++ authored_by ev)
              (observe_event decode decode_message job_id runs_dir ev now s)
      unfolding observe_event authored_by
      event-UpTo ev now txt s u = by_tests _ _ _ apart
        where
          after_tests : Bool → Bool → Bool → Observer
          after_tests a m w =
              if a
              then record s { session = some ev.id }
              else if m
              then on_text decode decode_message job_id runs_dir (text_of ev.message) now s
              else if w
              then on_script decode decode_message job_id runs_dir ev.args now s
              else s

          text_by : Bool → Bool → Bytes
          text_by m w =
              if m
              then text_of ev.message
              else if w
              then (if present ev.args then script_header ++ ev.args else [])
              else []

          apart :
              (same ev.type_name "session" && (not (is_pushed s.session) && not (same ev.id "")))
                ≡ true
              → ((has_prefix (codes "message") (codes ev.type_name) && present ev.message) ≡ false)
                × ((same ev.type_name "tool_execution_start" && same ev.tool_name "workflow")
                    ≡ false)
          apart h = ground (arith, session_apart ev.type_name (ground arith))

          by_tests :
              (a m w : Bool)
              → (a ≡ true → (m ≡ false) × (w ≡ false))
              → UpTo (txt ++ text_by m w) (after_tests a m w)
          by_tests true true w g = absurd (cc ((g refl).0))
          by_tests true false true g = absurd (cc ((g refl).1))
          by_tests true false false g = rw (append-nil txt) u
          by_tests false true w g = text-UpTo _ now txt s (text_of-StartsRune ev.message) u
          by_tests false false true g = script-UpTo ev.args now txt s u
          by_tests false false false g = rw (append-nil txt) u

      line-UpTo :
          (o : Option AuthoringLine) (now : String) (txt : Bytes) (s : Observer)
          → UpTo txt s
          → UpTo (txt ++ authored_in o) (after_line o now s)
      line-UpTo none now txt s u = rw (append-nil txt) u
      line-UpTo (some ev) now txt s u = event-UpTo ev now txt s u

      steps-UpTo :
          (steps : List Step) (txt : Bytes) (s : Observer)
          → all_written steps ≡ true
          → UpTo txt s
          → UpTo
              (txt ++ authored steps)
              (observe_authoring decode decode_message job_id runs_dir steps s)
      unfolding observe_authoring observe_line
      steps-UpTo [] txt s w u = rw (append-nil txt) u
      steps-UpTo (line raw now ∷ steps) txt s w u =
          let o = decode_authoring decode decode_message job_id runs_dir raw in
          subst
            (λ t.
              UpTo t (
                observe_authoring decode decode_message job_id runs_dir steps (after_line o now s)))
            (append_assoc txt (authored_in o) (authored steps))
            (steps-UpTo steps (txt ++ authored_in o) (after_line o now s) w
              (line-UpTo o now txt s u))
      steps-UpTo (write true ∷ steps) txt s w u =
          steps-UpTo steps txt (write_pending true s) w (write-UpTo txt s u)
      steps-UpTo (write false ∷ steps) txt s w u = absurd (cc w)

      -- Of a job with an id and a directory, while every write succeeds and the texts of messages
      -- are UTF-8: whatever the lines, and whenever the writer took a snapshot in between, once it
      -- takes the pending one the file has the length of all that was authored so far, and as its
      -- preview one cut of all of it; there is no file only if nothing was authored.
      pub file-observe_authoring :
          (steps : List Step)
          → all_written steps ≡ true
          → Tells
              (authored steps)
              (write_pending true
                (observe_authoring decode decode_message job_id runs_dir steps start)).file
      file-observe_authoring steps w =
          let (c, p, told) = steps-UpTo steps [] start w start-UpTo in
          subst (Tells (authored steps)) (latest-write _) told
