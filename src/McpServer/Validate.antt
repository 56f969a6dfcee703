-- ===== src/McpServer/Validate.antt =====
-- internal/mcpserver/validate.go: the arguments of the tools. A text is walked by its code points.
use pi_mcp.Prelude.{
  ℕ, Bool, true, false, ◌&&◌, ◌||◌, not, String, Option, none, some, List, [], ◌∷◌, ◌==◌, same,
  if◌then◌else◌,
}
use pi_mcp.Prelude.Text.{codes, is_space}
use pi_mcp.Model.{JobMode, read, write}

-- `stat` says whether an existing path is a directory; `runs_dir` is `filepath.Join` with the
-- directory of the run files.
pub record Files : Type 0 where
  pub stat : String → Option Bool
  pub eval_symlinks : String → Option String
  pub runs_dir : String → String

-- `none` is the error.
unfoldable pub validate_mode : String → Option JobMode
validate_mode m = if same m "read" then some read else if same m "write" then some write else none

-- `strings.TrimSpace(s) == ""`
unfoldable pub is_blank : List ℕ → Bool
is_blank [] = true
is_blank (c ∷ s) = is_space c && is_blank s

-- The segments between slashes.
unfoldable pub split : List ℕ → List (List ℕ)
split [] = [] ∷ []
split (c ∷ s) =
    let rest = split s in
    elim rest [
      | [] ↦ (c ∷ []) ∷ []
      | seg ∷ segs ↦ if c == 47 then [] ∷ seg ∷ segs else (c ∷ seg) ∷ segs
    ]

abbrev pub is_parent : List ℕ → Bool
is_parent (a ∷ b ∷ []) = a == 46 && b == 46
is_parent _ = false

unfoldable pub has_parent : List (List ℕ) → Bool
has_parent [] = false
has_parent (seg ∷ segs) = is_parent seg || has_parent segs

abbrev pub is_abs : List ℕ → Bool
is_abs [] = false
is_abs (c ∷ s) = c == 47

-- `none` is an error. The separator of the platform is the slash.
unfoldable pub validate_cwd : Files → String → Option String
unfolding is_blank split has_parent
validate_cwd files path =
    if is_blank (codes path) || has_parent (split (codes path)) || not (is_abs (codes path))
    then none
    else elim (files.stat path) [
      | none ↦ none
      | some is_dir ↦ if is_dir then files.eval_symlinks path else none
    ]
