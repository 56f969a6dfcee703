-- ===== src/RunStore/Events/Laws.antt =====
-- The delta and the intermediate rows agree, row by row, and each row keeps its size.
use pi_mcp.Prelude.{
  ℕ, suc, ◌+◌, ◌≡◌, refl, ap, ◌∙◌, inl, inr, true, String, Option, List, [], ◌∷◌, ◌++◌, arith,
  if◌then◌else◌, length, drop, map, same, Option-cases,
}
use pi_mcp.Prelude.Clock.{pos}
use pi_mcp.Prelude.Dict.{Dict, lookup, insert, lookup-insert, one_if}
use pi_mcp.Model.{Bytes, Agent, JournalEntry, Run, StatusEvent, IntermediateResult}
use pi_mcp.RunStore.Events.{
  agent_of, join, clamp, event_of, events_since, intermediate_of, intermediates, tally,
  histogram_from, model_histogram,
}

-- The rows of two stretches of the journal.
pub join-append :
    {A : Type 0} (row : Agent → JournalEntry → A) (agents : List Agent) (js ks : List JournalEntry)
    → join row agents (js ++ ks) ≡ join row agents js ++ join row agents ks
unfolding join
join-append row agents [] ks = refl
join-append row agents (j ∷ js) ks = elim (Option-cases (agent_of j.index agents)) [
  | inl e ↦ rw (e, join) (join-append row agents js ks)
  | inr (a, e) ↦ rw (e, join) (ap (λ rest. row a j ∷ rest) (join-append row agents js ks))
]

join-map :
    {A B : Type 0} (f : A → B) (row : Agent → JournalEntry → A) (agents : List Agent)
    (js : List JournalEntry)
    → map f (join row agents js) ≡ join (λ a j. f (row a j)) agents js
unfolding join
join-map f row agents [] = refl
join-map f row agents (j ∷ js) = elim (Option-cases (agent_of j.index agents)) [
  | inl e ↦ rw (e, join, map) (join-map f row agents js)
  | inr (a, e) ↦ rw (e, join, map) (ap (λ rest. f (row a j) ∷ rest) (join-map f row agents js))
]

-- What an event and an intermediate row share.
abbrev pub shared : {Any : Type 0} → StatusEvent Any → IntermediateResult Any
shared ev = record {
  label = ev.label;
  model = ev.model;
  phase = ev.phase;
  result = ev.result;
  preview = ev.preview;
  truncated = ev.truncated;
}

-- The delta from the start, with results, shows the rows of the intermediate list, in its order.
pub events_since-intermediates :
    {Any : Type 0} (decode : Bytes → Option Any) (run : Run) (max_bytes : ℕ)
    → map shared (events_since decode run (pos 0) true max_bytes)
      ≡ intermediates decode run max_bytes
unfolding events_since clamp intermediates event_of intermediate_of
events_since-intermediates decode run max_bytes =
    let start : clamp (pos 0) (length run.journal) ≡ 0 = ground arith in
    ap (λ n. map shared (join (event_of decode true max_bytes) run.agents (drop n run.journal)))
      start
    ∙ join-map shared (event_of decode true max_bytes) run.agents run.journal

-- The agents of a model.
abbrev pub named : String → List Agent → ℕ
named m [] = 0
named m (a ∷ rest) = one_if (same a.model m) + named m rest

tally-insert :
    (k m : String) (n : ℕ) (h : Dict ℕ)
    → tally (insert k n h) m ≡ (if same k m then n else tally h m)
unfolding tally
tally-insert k m n h = ground (arith, lookup-insert m k n h)

tally-histogram_from :
    (h : Dict ℕ) (agents : List Agent) (m : String)
    → tally (histogram_from h agents) m
      ≡ (if same m "" then tally h m else tally h m + named m agents)
unfolding histogram_from
tally-histogram_from h [] m = ground arith
tally-histogram_from h (a ∷ rest) m =
    let step =
      tally-histogram_from (if same a.model "" then h else insert a.model (suc (tally h a.model)) h)
        rest m in
    grind (arith, tally-insert, step)

-- The histogram counts, for each model, the agents of the model, and none for the empty name.
pub model_histogram_lem :
    (run : Run) (m : String)
    → tally (model_histogram run) m ≡ (if same m "" then 0 else named m run.agents)
unfolding model_histogram tally lookup
model_histogram_lem run m = ground (arith, tally-histogram_from [] run.agents m)
