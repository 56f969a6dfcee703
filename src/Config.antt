-- ===== src/Config.antt =====
-- internal/config/config.go: the constants that the components read. Durations are in nanoseconds.
use pi_mcp.Prelude.{ℕ, ◌+◌, ◌*◌, String}
use pi_mcp.Prelude.Clock.{minute}

abbrev pub default_concurrency_cap : ℕ
default_concurrency_cap = 4

abbrev pub forced_agent_timeout_ms : ℕ
forced_agent_timeout_ms = 1200000

-- The timeout of one agent and ten minutes.
abbrev pub stale_threshold : ℕ
stale_threshold = forced_agent_timeout_ms * 1000000 + 10 * minute

abbrev pub early_inactivity_warn : ℕ
early_inactivity_warn = 5 * minute

abbrev pub max_authoring_retries : ℕ
max_authoring_retries = 2

abbrev pub max_inline_result_bytes : ℕ
max_inline_result_bytes = 16 * 1024

abbrev pub max_authoring_preview_bytes : ℕ
max_authoring_preview_bytes = 6 * 1024

abbrev pub orchestrator_model : String
orchestrator_model = "openai-codex/gpt-5.5"

abbrev pub orchestrator_thinking : String
orchestrator_thinking = "high"

abbrev pub pi_binary : String
pi_binary = "pi"

abbrev pub no_context_files_flag : String
no_context_files_flag = "--no-context-files"

abbrev pub err_agent_execution_error : String
err_agent_execution_error = "AGENT_EXECUTION_ERROR"

abbrev pub err_workflow_aborted : String
err_workflow_aborted = "WORKFLOW_ABORTED"

abbrev pub err_persistence_error : String
err_persistence_error = "PERSISTENCE_ERROR"

abbrev pub err_unknown : String
err_unknown = "UNKNOWN"

abbrev pub err_server_restarted : String
err_server_restarted = "SERVER_RESTARTED"

abbrev pub err_no_workflow_run : String
err_no_workflow_run = "NO_WORKFLOW_RUN"

abbrev pub worktree_branch_prefix : String
worktree_branch_prefix = "pi-mcp/job-"

abbrev pub worktree_subdir : String
worktree_subdir = "pi-mcp/worktrees"

abbrev pub runs_dir_rel : String
runs_dir_rel = ".pi/workflows/runs"
