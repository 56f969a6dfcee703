-- ===== src/Tests/Answers.antt =====
-- A run with three agents, at the theorems about the events, the answers and the long poll.
use pi_mcp.Prelude.{ℕ, suc, ◌≡◌, ◌≢◌, ◌↔◌, refl, true, false, Option, none, some, List, [], ◌∷◌}
use pi_mcp.Prelude.Clock.{pos}
use pi_mcp.Prelude.Dict.{lookup}
use pi_mcp.Model.{Status, running, completed, Bytes, Run, Agent, JournalEntry, write}
use pi_mcp.RunStore.Events.{join, event_of}
use pi_mcp.McpServer.Delta.{Tracker, position}
use pi_mcp.McpServer.Delta.Once.{polls, polls_lem}
use pi_mcp.McpServer.Coerce.{Codec, View}
use pi_mcp.McpServer.Status.{World, Resolved, Input, Loaded, found, load_with_grace}
use pi_mcp.McpServer.Status.Build.{build_status, live_status}
use pi_mcp.McpServer.Status.Answers.{build_status_panics_iff}

abbrev pub agent_of_index : ℕ → Status → Agent
agent_of_index i status = record {
  id = pos (suc i);
  call_index = pos i;
  label = "l";
  model = "m";
  phase = "p";
  prompt = "";
  status = status;
  result_preview = "";
  tokens = pos 0;
  started_at = none;
  ended_at = none;
  error = none;
}

abbrev entry : ℕ → Bytes → JournalEntry
entry i result = record { index = pos i; hash = ""; result = result }

abbrev pub run_of : Status → List JournalEntry → Bytes → Run
run_of status journal result = record {
  run_id = "r";
  session_id = "s";
  workflow_name = "w";
  status = status;
  current_phase = some "p";
  phases = [];
  agents =
      agent_of_index 0 Status.done
      ∷ agent_of_index 1 Status.done
      ∷ agent_of_index 2 Status.error
      ∷ [];
  journal = journal;
  logs = [];
  result = result;
  started_at = none;
  completed_at = none;
  updated_at = some 1;
  duration_ms = none;
  token_usage = none;
  args = [];
}

-- The journal is in the order of completion.
abbrev pub journal : List JournalEntry
journal = entry 1 (b'a' ∷ []) ∷ entry 0 (b'b' ∷ b'c' ∷ []) ∷ []

abbrev pub run : Run
run = run_of running journal []

abbrev decode : Bytes → Option Bytes
decode raw = some raw

abbrev null_text : Bytes
null_text = b'n' ∷ b'u' ∷ b'l' ∷ b'l' ∷ []

abbrev codec : Codec Bytes
codec = record {
  decode = decode;
  view = λ raw. View.null;
  as_text = λ raw. "";
  of_text = λ s. [];
  of_object = λ o. [];
  of_keys = λ ks. "";
}

abbrev world : Loaded → World
world loaded = record {
  job = λ id. none;
  job_of_run = λ run_id cwd. none;
  write_info = λ id. none;
  activity = λ id. none;
  authoring = λ dir id. none;
  reads = λ dir id i. loaded;
  pid_alive = none;
  now = 2;
  files = record { stat = λ p. none; eval_symlinks = λ p. none; runs_dir = λ cwd. cwd };
}

abbrev target : Resolved
target = record {
  runs_dir = "/runs";
  run_id = "r";
  job_id = "a";
  mode = some write;
  pid = pos 0;
  has_job = true;
  worktree = "/wt";
  branch = "b";
  job_status = running;
  started_at = 1;
  error_message = "";
  error_code = "";
}

abbrev input : Input
input = record {
  job_id = "a";
  run_id = "";
  cwd = "";
  wait = false;
  include_results = false;
  from_start = false;
}

abbrev pub tracker : Tracker
tracker = record { delivered = []; warned = ("a", 3) ∷ [] }

abbrev stretches : List (List JournalEntry)
stretches = (entry 1 [] ∷ []) ∷ [] ∷ (entry 0 [] ∷ entry 2 [] ∷ []) ∷ []

polls_lem_example :
    polls decode true 9 "a" (run_of running [] []) stretches tracker
    ≡ join (event_of decode true 9) run.agents (entry 1 [] ∷ entry 0 [] ∷ entry 2 [] ∷ [])
unfolding position lookup
polls_lem_example = polls_lem decode true 9 "a" (run_of running [] []) stretches tracker refl

abbrev null_run : Run
null_run = run_of completed journal null_text

build_status_panics_iff_example :
    ((build_status codec (world (found null_run)) target input tracker).0 ≡ none) ↔ (
      (live_status (world (found null_run)) target null_run ≡ completed)
      × (null_text ≢ [])
      × (View.null ≡ View.null))
unfolding load_with_grace
build_status_panics_iff_example =
    build_status_panics_iff codec (world (found null_run)) target input tracker null_run refl
