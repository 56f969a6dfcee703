-- ===== src/Tests/Watches.antt =====
-- The watch of a directory that is made while the program looks, at the theorems about watches and
-- the tools.
use Prim.Native.String
use pi_mcp.Prelude.{
  ℕ, ◌+◌, ◌≤◌, ◌≡◌, ◌⊎◌, refl, suc, true, false, ◌||◌, some, [], ◌∷◌, arith, length, leb,
  string_dec,
}
use pi_mcp.Watch.{
  FilePath, within, add_nearest, Watcher, Change, change, fires, failure, run, same_path, rel,
}
use pi_mcp.Watch.Nearest.{prefixes, add_nearest_lem}
use pi_mcp.Watch.Hints.{fired, change_gives_hint}
use pi_mcp.McpServer.Validate
use pi_mcp.McpServer.Handlers.{WorkflowInput}

abbrev target : FilePath
target = "home" ∷ "runs" ∷ []

-- At first there is the root, then all of it.
add_nearest_lem_example :
    (n : ℕ) × (count : ℕ) × (add_nearest (λ p. leb (length p) 0) (λ p. true) target
      ≡ (prefixes target n (suc count), true))
    × (0 ≤ n)
    × (n + count ≤ length target)
    × ((n + count ≡ length target) ⊎ (true ≡ false))
add_nearest_lem_example =
    add_nearest_lem (λ p. leb (length p) 0) (λ p. true) target 0 (omega arith) refl

abbrev written : Change
written = record {
  name = "home" ∷ "runs" ∷ "r1.json" ∷ [];
  is_create = false;
  works = λ p. true;
  works_again = λ p. true;
  exists = true;
}

abbrev resting : Watcher
resting = record { armed = false; hint = false; watched = target ∷ []; stopped = false }

change_gives_hint_example :
    let w' = run target (change written ∷ failure ∷ fires ∷ []) resting in
    ((w'.hint || w'.armed) ≡ true) × ((fired (failure ∷ fires ∷ []) ≡ false) ⊎ (w'.hint ≡ true))
unfolding within same_path rel string_dec
change_gives_hint_example =
    change_gives_hint target ("r1.json" ∷ []) written resting (failure ∷ fires ∷ []) refl
      (refl, (refl, (refl, tt))) refl refl

abbrev files : Validate.Files
files = record {
  stat = λ p. some true;
  eval_symlinks = λ p. some p;
  runs_dir = λ p. Prim.Native.String.◌++◌ p "/.pi/workflows/runs";
}

abbrev input : WorkflowInput
input = record { task = "fix"; mode = "write"; cwd = "/repo"; context = "" }
