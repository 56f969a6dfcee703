-- ===== src/Runner.antt =====
-- internal/runner/argv.go and prompt.go: the command line of pi and its prompt. Texts that are walked
-- are lists of code points.
pub mod Search
pub mod Prompt
pub mod Spawn
use pi_mcp.Prelude.{ℕ, Bool, true, false, String, List, [], ◌∷◌, ◌++◌, if◌then◌else◌}
use pi_mcp.Config.{pi_binary, orchestrator_model, orchestrator_thinking, no_context_files_flag}

abbrev pub pi_base_flags : List String
pi_base_flags = "-p" ∷ "--mode" ∷ "json" ∷ "--no-session" ∷ []

unfoldable pub build_argv : String → Bool → List String
build_argv prompt no_context_files =
    (pi_binary ∷ pi_base_flags)
    ++ (("--model" ∷ orchestrator_model ∷ "--thinking" ∷ orchestrator_thinking ∷ [])
        ++ ((if no_context_files then no_context_files_flag ∷ [] else []) ++ (prompt ∷ [])))
