-- ===== src/Tests/Prompts.antt =====
-- A task that holds the marker of the context block.
use pi_mcp.Prelude.{◌≡◌, [], ◌++◌}
use pi_mcp.Prelude.Text.{codes}
use pi_mcp.Runner.Prompt.{marker, render_prompt, render_prompt_drops}

render_prompt_drops_example :
    render_prompt "read" (codes "explain " ++ (marker ++ codes " in prompt.go")) []
    ≡ render_prompt "read" (codes "explain " ++ marker) []
render_prompt_drops_example = render_prompt_drops "read" (codes "explain ") (codes " in prompt.go")
