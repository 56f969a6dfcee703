-- ===== src/McpServer/Status/Blocks.antt =====
-- internal/mcpserver/handler_status.go, the parts of an answer: the heartbeat, the write block and the
-- message of a failure.
use pi_mcp.Prelude.{
  ℕ, ◌/◌, Bool, false, ◌||◌, not, String, Option, none, some, List, [], ◌∷◌, same, ltb, ◌==◌,
  if◌then◌else◌,
}
use pi_mcp.Prelude.Clock.{ℤ, pos, negsuc, sub_time, second}
use pi_mcp.Config.{err_unknown}
use pi_mcp.Model.{Status, Run, Agent, Progress, WriteInfo, is_aborted}
use pi_mcp.LiveStatus.{map_disk}
use pi_mcp.McpServer.Status.{Resolved}

-- The floor of the seconds, which the code's float yields up to 2 ^ 22 of them.
unfoldable pub clamp_seconds : ℤ → ℕ
clamp_seconds (pos n) = n / second
clamp_seconds (negsuc n) = 0

-- The zero time is 0.
unfoldable pub newest : Option ℕ → Option (ℕ × ℕ) → ℕ
newest none none = 0
newest (some t) none = t
newest none (some (files, last)) = last
newest (some t) (some (files, last)) = if ltb t last then last else t

unfoldable pub progress_block : Resolved → ℕ → Option ℕ → Option (ℕ × ℕ) → Option Progress
unfolding newest clamp_seconds
progress_block tgt now updated activity =
    if not tgt.has_job || tgt.started_at == 0
    then none
    else let last = newest updated activity in
      some record {
        elapsed_seconds = clamp_seconds (sub_time now tgt.started_at);
        worktree_files = elim activity [ none ↦ 0 | some (files, changed) ↦ files ];
        last_activity_seconds =
            if last == 0 then none else some (clamp_seconds (sub_time now last));
      }

abbrev pub run_aborted : Option Run → Bool
run_aborted none = false
run_aborted (some run) = is_aborted (map_disk run.status)

unfoldable pub write_block : Resolved → Option Run → WriteInfo
write_block tgt run = record {
  branch = tgt.branch;
  worktree_path = if is_aborted tgt.job_status || run_aborted run then "" else tgt.worktree;
  diff_stat = "";
  files_changed = [];
}

-- The first error of an agent that failed.
unfoldable pub agent_error : List Agent → Option String
agent_error [] = none
agent_error (a ∷ rest) =
    let later = agent_error rest in
    elim a.status [
      | Status.error ↦ elim a.error [
        | none ↦ later
        | some msg ↦ if same msg "" then later else some msg
      ]
      | _ ↦ later
    ]

abbrev pub code_or_unknown : String → String
code_or_unknown code = if same code "" then err_unknown else code

unfoldable pub failure_message : Resolved → Option Run → String
unfolding agent_error
failure_message tgt none =
    if same tgt.error_message "" then code_or_unknown tgt.error_code else tgt.error_message
failure_message tgt (some run) =
    if same tgt.error_message ""
    then elim (agent_error run.agents) [
      | some msg ↦ msg
      | none ↦ elim run.logs [ [] ↦ code_or_unknown tgt.error_code | log ∷ logs ↦ log ]
    ]
    else tgt.error_message
