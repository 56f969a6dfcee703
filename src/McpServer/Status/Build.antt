-- ===== src/McpServer/Status/Build.antt =====
-- internal/mcpserver/handler_status.go, buildStatus. The tracker is the server's delta tracker.
use pi_mcp.Prelude.{
  ℕ, suc, Bool, true, false, ◌&&◌, not, String, Option, none, some, List, [], ◌∷◌, if◌then◌else◌,
  length,
}
use pi_mcp.Prelude.Clock.{pos}
use pi_mcp.Config.{err_persistence_error, max_inline_result_bytes}
use pi_mcp.Model.{
  Bytes, Status, queued, running, completed, failed, aborted, Run, Agent, JournalEntry, Progress,
  WriteInfo, AuthoringInfo, StatusEvent, is_aborted,
}
use pi_mcp.LiveStatus.{map_disk, is_terminal, derive}
use pi_mcp.RunStore.Events.{StatusMetadata, metadata, agent_of, events_since, raw_to_any}
use pi_mcp.McpServer.Delta.{Tracker, take}
use pi_mcp.McpServer.Coerce.{Codec, coerce_result}
use pi_mcp.McpServer.Status.{
  World, Resolved, Input, Loaded, found, absent, broken, delta_key, writes, pid_is_alive,
  worktree_last, worktree_active, load_with_grace,
}
use pi_mcp.McpServer.Status.Blocks.{progress_block, write_block, failure_message}

pub record Output (Any : Type 0) : Type 0 where
  pub job_id : String
  pub run_id : Option String
  pub status : Status
  pub phase : Option String
  pub blind_window : Bool
  pub events : List (StatusEvent Any)
  pub agents_done : ℕ
  pub agents_total : ℕ
  pub result : Option Any
  pub metadata : Option StatusMetadata
  pub write : Option WriteInfo
  pub progress : Option Progress
  pub authoring : Option AuthoringInfo
  pub error : String

abbrev pub is_completed : Status → Bool
is_completed completed = true
is_completed _ = false

abbrev pub is_failure : Status → Bool
is_failure failed = true
is_failure aborted = true
is_failure _ = false

-- The journal entries that have an agent.
unfoldable pub count_done : List Agent → List JournalEntry → ℕ
count_done agents [] = 0
count_done agents (j ∷ js) =
    let rest = count_done agents js in
    elim (agent_of j.index agents) [ some a ↦ suc rest | none ↦ rest ]

-- The write block of a job whose run file is there. Only the first branch stages the worktree.
unfoldable pub write_of : World → Resolved → Run → Option WriteInfo
write_of w tgt run =
    if writes tgt.mode && tgt.has_job
    then if is_terminal (map_disk run.status) && not (is_aborted (map_disk run.status))
      then elim (w.write_info tgt.job_id) [
        | some info ↦ some info
        | none ↦ some record {
          branch = tgt.branch;
          worktree_path = tgt.worktree;
          diff_stat = "";
          files_changed = [];
        }
      ]
      else some (write_block tgt (some run))
    else none

unfoldable pub live_status : World → Resolved → Run → Status
live_status w tgt run =
    derive run.status run.updated_at w.now (pid_is_alive w tgt)
      (worktree_active w.now (worktree_last w tgt))

module _ {Any : Type 0} (codec : Codec Any) where
  unfoldable pub blank : Resolved → Status → Output Any
  blank tgt status = record {
    job_id = tgt.job_id;
    run_id = none;
    status = status;
    phase = none;
    blind_window = false;
    events = [];
    agents_done = 0;
    agents_total = 0;
    result = none;
    metadata = none;
    write = none;
    progress = none;
    authoring = none;
    error = "";
  }

  -- The run file does not exist.
  unfoldable pub without_run : World → Resolved → Output Any
  unfolding blank
  without_run w tgt =
      let write = if writes tgt.mode then some (write_block tgt none) else none in
      if not tgt.has_job
      then blank tgt queued
      else if is_terminal tgt.job_status
      then record (blank tgt tgt.job_status) {
        write = write;
        error = if is_failure tgt.job_status then failure_message tgt none else "";
      }
      else record (blank tgt running) {
        blind_window = true;
        authoring = w.authoring tgt.runs_dir tgt.job_id;
        write = write;
        progress = progress_block tgt w.now none (worktree_last w tgt);
      }

  -- The output but for the result.
  unfoldable pub with_run : World → Resolved → Input → ℕ → Run → Option WriteInfo → Output Any
  unfolding live_status count_done
  with_run w tgt input from run write =
      let status = live_status w tgt run in
      record (blank tgt status) {
        run_id = some run.run_id;
        phase = run.current_phase;
        events =
            events_since codec.decode run (pos from) input.include_results max_inline_result_bytes;
        agents_done = count_done run.agents run.journal;
        agents_total = length run.agents;
        metadata = some (metadata run);
        write = write;
        progress =
            if is_terminal status
            then none
            else progress_block tgt w.now run.updated_at (worktree_last w tgt);
        error = if is_failure status then failure_message tgt (some run) else "";
      }

  -- The result of a run that shows as completed; `none` is a panic.
  unfoldable pub with_result : Bytes → Output Any → Option (Output Any)
  with_result raw out =
      if is_completed out.status
      then elim (coerce_result codec raw) [
        | none ↦ none
        | some res ↦ some (record out { result = raw_to_any codec.decode res })
      ]
      else some out

  unfoldable pub of_loaded :
      World → Resolved → Input → Loaded → Tracker → Option (Output Any) × Tracker
  unfolding without_run with_run with_result write_of blank
  of_loaded w tgt input absent d = (some (without_run w tgt), d)
  of_loaded w tgt input broken d =
      (some (record (blank tgt failed) { error = err_persistence_error }), d)
  of_loaded w tgt input (found run) d =
      let (from, d') = take (delta_key tgt) (length run.journal) input.from_start d in
      (with_result run.result (with_run w tgt input from run (write_of w tgt run)), d')

  unfoldable pub build_status : World → Resolved → Input → Tracker → Option (Output Any) × Tracker
  unfolding of_loaded
  build_status w tgt input d =
      of_loaded w tgt input (load_with_grace tgt.job_status (w.reads tgt.runs_dir tgt.run_id)) d
