-- ===== src/Runner/Prompt.antt =====
-- internal/runner/prompt.go, with the template of internal/config/config.go.
use pi_mcp.Prelude.{
  ℕ, ◌≡◌, refl, sym, ap, ◌∙◌, inl, inr, String, Option, none, some, List, [], ◌∷◌, ◌++◌, same,
  if◌then◌else◌, take, Option-cases,
}
use mathlib.Core.Option
use mathlib.Core.List.{append_assoc}
use pi_mcp.Prelude.Text.{codes}
use pi_mcp.McpServer.Validate.{is_blank}
use pi_mcp.Runner.Search.{
  index_of, index_of-append, index_of-end, split_at, replace_first, trim_blank,
}

-- The lines of a text, joined.
abbrev pub lines : List String → List ℕ
lines [] = []
lines (l ∷ ls) = elim ls [ [] ↦ codes l | m ∷ ms ↦ codes l ++ (b'\n' ∷ lines ls) ]

unfoldable pub forcing_prompt_template : List ℕ
forcing_prompt_template = lines (
    "You MUST make exactly ONE call to the `workflow` tool with background:false. Do not answer"
    ∷ "directly. Do not use background:true. Return the final synthesized result INLINE this turn."
    ∷ "Decompose the task as you see fit and fan out subagents in parallel."
    ∷ "Run the workflow to completion without throttling: pass tokenBudget:2000000000 (effectively"
    ∷ "unlimited) to the workflow tool and do NOT set per-phase budgets — never stop or throttle the run"
    ∷ "for token or cost reasons. Pass the large value EXPLICITLY; do not rely on omitting it."
    ∷ "Give agents room to finish: pass agentTimeoutMs:1200000 (20 minutes) to the workflow tool so"
    ∷ "coding/TDD agents are not killed by the 5-minute default per-agent timeout. Do NOT set a"
    ∷ "per-agent timeoutMs on any agent() call — it overrides agentTimeoutMs and re-introduces the"
    ∷ "5-minute kill; rely solely on the single agentTimeoutMs above."
    ∷ "The workflow MUST return an object matching exactly this JSON shape:" ∷ "{{CONTRACT}}" ∷ ""
    ∷ "TASK:" ∷ "{{TASK}}" ∷ "" ∷ "[CONTEXT:" ∷ "{{CONTEXT}}]" ∷ [])

abbrev pub read_contract_skeleton : String
read_contract_skeleton =
    "{ \"summary\": \"string\", \"findings\": [ { \"title\": \"string\", \"detail\": \"string\", \"severity\": \"low|med|high\" } ], \"confidence\": \"string\", \"open_questions\": [\"string\"] }"

abbrev pub write_contract_skeleton : String
write_contract_skeleton =
    "{ \"summary\": \"string\", \"files_changed\": [\"string\"], \"diff_summary\": \"string\", \"tests_run\": \"string\", \"notes\": \"string\" }"

abbrev pub marker : List ℕ
marker = codes "[CONTEXT:"

unfoldable pub strip_context_block : List ℕ → List ℕ
strip_context_block s = elim (index_of marker s) [ none ↦ s | some i ↦ trim_blank (take i s) ]

-- `none` is the error of an invalid mode.
unfoldable pub contract_of : String → Option String
contract_of mode =
    if same mode "read"
    then some read_contract_skeleton
    else if same mode "write"
    then some write_contract_skeleton
    else none

unfoldable pub render_with : List ℕ → List ℕ → List ℕ → List ℕ
unfolding strip_context_block forcing_prompt_template
render_with contract task context =
    let out =
      replace_first (codes "{{TASK}}") task
        (replace_first (codes "{{CONTRACT}}") contract forcing_prompt_template) in
    if is_blank context
    then strip_context_block out
    else replace_first (codes "{{CONTEXT}}") context out

unfoldable pub render_prompt : String → List ℕ → List ℕ → Option (List ℕ)
unfolding contract_of render_with
render_prompt mode task context =
    Option.map (λ contract. render_with (codes contract) task context) (contract_of mode)

-- What follows the marker is dropped.
strip-append :
    (s t : List ℕ) (i : ℕ)
    → index_of marker s ≡ some i
    → strip_context_block (s ++ t) ≡ strip_context_block s
unfolding strip_context_block
strip-append s t i e =
    let (p, q) = index_of-append marker s t i e in
    rw (p, strip_context_block) (rw (e, strip_context_block) (ap trim_blank q))

shuffle : (h a m t : List ℕ) → h ++ (a ++ (m ++ t)) ≡ ((h ++ a) ++ m) ++ t
shuffle h a m t = sym (append_assoc (h ++ a) m t ∙ append_assoc h a (m ++ t))

regroup : (a m b r : List ℕ) → (a ++ (m ++ b)) ++ r ≡ a ++ (m ++ (b ++ r))
regroup a m b r = append_assoc a (m ++ b) r ∙ ap (λ s. a ++ s) (append_assoc m b r)

strip_at :
    (h a t : List ℕ)
    → strip_context_block (h ++ (a ++ (marker ++ t))) ≡ strip_context_block ((h ++ a) ++ marker)
strip_at h a t =
    let (i, e) = index_of-end marker (h ++ a) in
    ap strip_context_block (shuffle h a marker t) ∙ strip-append ((h ++ a) ++ marker) t i e

strip_drops :
    (h a b r : List ℕ)
    → strip_context_block (h ++ ((a ++ (marker ++ b)) ++ r))
      ≡ strip_context_block (h ++ ((a ++ marker) ++ r))
strip_drops h a b r =
    ap (λ s. strip_context_block (h ++ s)) (regroup a marker b r)
    ∙ strip_at h a (b ++ r)
    ∙ sym (ap (λ s. strip_context_block (h ++ s)) (append_assoc a marker r) ∙ strip_at h a r)

replaced_drops :
    (a b s : List ℕ) (o : Option (List ℕ × List ℕ))
    → split_at (codes "{{TASK}}") s ≡ o
    → strip_context_block (replace_first (codes "{{TASK}}") (a ++ (marker ++ b)) s)
      ≡ strip_context_block (replace_first (codes "{{TASK}}") (a ++ marker) s)
unfolding replace_first
replaced_drops a b s none e = rw (e, replace_first) refl
replaced_drops a b s (some (h, r)) e = rw (e, replace_first) (strip_drops h a b r)

-- Without a context, whatever a task holds behind the marker of the context block is dropped: the
-- prompt is that of the task up to the marker.
pub render_prompt_drops :
    (mode : String) (a b : List ℕ)
    → render_prompt mode (a ++ (marker ++ b)) [] ≡ render_prompt mode (a ++ marker) []
unfolding render_prompt render_with is_blank
render_prompt_drops mode a b = elim (Option-cases (contract_of mode)) [
  | inl e ↦ rw (e, render_prompt) refl
  | inr (contract, e) ↦
      rw (e, render_prompt)
        (ap some (
          replaced_drops a b
            (replace_first (codes "{{CONTRACT}}") (codes contract) forcing_prompt_template) _ refl))
]
