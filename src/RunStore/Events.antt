-- ===== src/RunStore/Events.antt =====
-- internal/runstore: events.go, intermediate.go, result.go and histogram.go, the rows that a run file
-- yields. `decode` is encoding/json on a stored result; `none` is its nil.
pub mod Laws
use pi_mcp.Prelude.{
  ℕ, zero, suc, ◌+◌, Bool, true, false, ◌&&◌, String, Option, none, some, List, [], ◌∷◌, leb, ltb,
  if◌then◌else◌, length, drop, same,
}
use pi_mcp.Prelude.Clock.{ℤ, pos, negsuc, same_int}
use pi_mcp.Prelude.Dict.{Dict, lookup, insert}
use pi_mcp.Model.{
  Status, Bytes, Agent, JournalEntry, Run, TokenUsage, StatusEvent, IntermediateResult,
}
use pi_mcp.RunStore.Preview.{truncate_preview}

-- `byCallIndex[i]`: a later agent of the same call index replaces an earlier one.
unfoldable pub agent_of : ℤ → List Agent → Option Agent
agent_of i [] = none
agent_of i (a ∷ rest) = elim (agent_of i rest) [
  | some b ↦ some b
  | none ↦ if same_int a.call_index i then some a else none
]

-- One row per journal entry with an agent, in the journal's order.
unfoldable pub join :
    {A : Type 0} → (Agent → JournalEntry → A) → List Agent → List JournalEntry → List A
join row agents [] = []
join row agents (j ∷ js) =
    let rest = join row agents js in
    elim (agent_of j.index agents) [ some a ↦ row a j ∷ rest | none ↦ rest ]

-- The position to deliver from, brought into the journal's range.
unfoldable pub clamp : ℤ → ℕ → ℕ
clamp (negsuc n) len = 0
clamp (pos n) len = if ltb len n then len else n

-- A limit of 0 stands for every value that is not positive.
unfoldable pub is_oversized : ℕ → Bytes → Bool
is_oversized max_bytes result = ltb 0 max_bytes && ltb max_bytes (length result)

module _ {Any : Type 0} (decode : Bytes → Option Any) where
  unfoldable pub raw_to_any : Bytes → Option Any
  raw_to_any [] = none
  raw_to_any raw = decode raw

  is_error : Status → Bool
  is_error Status.error = true
  is_error _ = false

  unfoldable pub event_of : Bool → ℕ → Agent → JournalEntry → StatusEvent Any
  unfolding is_error is_oversized raw_to_any
  event_of include_results max_bytes a j =
      let failed = is_error a.status in
      let cut = include_results && is_oversized max_bytes j.result in
      record {
        label = a.label;
        model = a.model;
        phase = a.phase;
        status = if failed then Status.error else Status.other "ok";
        error = if failed then elim a.error [ some msg ↦ msg | none ↦ "" ] else "";
        result = if include_results then if cut then none else raw_to_any j.result else none;
        preview = if cut then truncate_preview j.result max_bytes else [];
        truncated = cut;
      }

  unfoldable pub events_since : Run → ℤ → Bool → ℕ → List (StatusEvent Any)
  unfolding join clamp
  events_since run from include_results max_bytes =
      join (event_of include_results max_bytes) run.agents
        (drop (clamp from (length run.journal)) run.journal)

  unfoldable pub intermediate_of : ℕ → Agent → JournalEntry → IntermediateResult Any
  unfolding is_oversized raw_to_any
  intermediate_of max_bytes a j =
      let cut = is_oversized max_bytes j.result in
      record {
        label = a.label;
        model = a.model;
        phase = a.phase;
        result = if cut then none else raw_to_any j.result;
        preview = if cut then truncate_preview j.result max_bytes else [];
        truncated = cut;
      }

  unfoldable pub intermediates : Run → ℕ → List (IntermediateResult Any)
  unfolding join
  intermediates run max_bytes = join (intermediate_of max_bytes) run.agents run.journal

-- `h[m]`, 0 where the map has no entry.
unfoldable pub tally : Dict ℕ → String → ℕ
tally h m = elim (lookup m h) [ some n ↦ n | none ↦ 0 ]

unfoldable pub histogram_from : Dict ℕ → List Agent → Dict ℕ
unfolding tally
histogram_from h [] = h
histogram_from h (a ∷ rest) =
    histogram_from (if same a.model "" then h else insert a.model (suc (tally h a.model)) h) rest

unfoldable pub model_histogram : Run → Dict ℕ
unfolding histogram_from
model_histogram run = histogram_from [] run.agents

pub record StatusMetadata : Type 0 where
  pub by_model : Dict ℕ
  pub agent_count : ℕ
  pub token_usage : Option TokenUsage
  pub duration_ms : Option ℤ

unfoldable pub metadata : Run → StatusMetadata
unfolding model_histogram
metadata run = record {
  by_model = model_histogram run;
  agent_count = length run.agents;
  token_usage = run.token_usage;
  duration_ms = run.duration_ms;
}
