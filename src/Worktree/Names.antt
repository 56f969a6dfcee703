-- ===== src/Worktree/Names.antt =====
-- The names of changed files, as `git diff --name-only -z` writes them and Diff reads them.
use Prim.Native.String
use Prim.Native.Char.{Char, code}
use pi_mcp.Prelude.{◌≡◌, refl, ap, ◌∙◌, false, String, List, [], ◌∷◌, ◌==◌, same, All, string_dec}
use pi_mcp.Worktree.{split_nul, not_empty, changed_files}

abbrev nul : Char
nul = "\0"

-- A name and its terminator in front of a text.
abbrev pub terminated : String → String → String
terminated Prim.Native.String.[] rest = Prim.Native.String.◌∷◌ nul rest
terminated (Prim.Native.String.◌∷◌ c s) rest = Prim.Native.String.◌∷◌ c (terminated s rest)

abbrev pub terminated_all : List String → String
terminated_all [] = Prim.Native.String.[]
terminated_all (f ∷ fs) = terminated f (terminated_all fs)

abbrev NulFree : String → Type 0
NulFree Prim.Native.String.[] = Unit {0}
NulFree (Prim.Native.String.◌∷◌ c s) = ((code c == 0) ≡ false) × NulFree s

-- A name that git can list.
abbrev pub IsName : String → Type 0
IsName f = (same f "" ≡ false) × NulFree f

split-terminated :
    (f rest : String)
    → NulFree f
    → split_nul (terminated f rest) ≡ (f, (split_nul rest).0 ∷ (split_nul rest).1)
unfolding split_nul
split-terminated Prim.Native.String.[] rest h = refl
split-terminated (Prim.Native.String.◌∷◌ c s) rest (h, k) =
    let ih = split-terminated s rest k in rw (h, ih) refl

not_empty-split :
    (fs : List String)
    → All IsName fs
    → not_empty ((split_nul (terminated_all fs)).0 ∷ (split_nul (terminated_all fs)).1) ≡ fs
unfolding split_nul not_empty string_dec
not_empty-split [] h = refl
not_empty-split (f ∷ fs) ((named, free), h) =
    ap (λ (p : String × List String). not_empty (p.0 ∷ p.1))
      (split-terminated f (terminated_all fs) free)
    ∙ rw named (ap (λ l. f ∷ l) (not_empty-split fs h))

-- Names that are not empty and have no NUL, each with a NUL behind it, are read back as they are,
-- whatever else they hold.
pub changed_files-terminated_all :
    (fs : List String) → All IsName fs → changed_files (terminated_all fs) ≡ fs
unfolding changed_files
changed_files-terminated_all fs h = not_empty-split fs h
