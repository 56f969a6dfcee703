-- ===== src/Worktree/Prune.antt =====
-- Prune, once and again.
use pi_mcp.Prelude.{
  ◌≡◌, refl, ap, ◌∙◌, false, String, Option, none, some, List, [], ◌∷◌, same, string_dec,
  if◌then◌else◌, if_cases,
}
use pi_mcp.Worktree.{Os, Failure, Error, worktree_prune_failed, resolve_common_repo, clear, prune}
use pi_mcp.Worktree.Create.{ReadsOnly, ask_common}

-- The commands of Prune that change the repository.
pub data IsCleanup : List String → Type 0 where
  remove : (path : String) → IsCleanup ("worktree" ∷ "remove" ∷ "--force" ∷ path ∷ [])
  delete_branch : (branch : String) → IsCleanup ("branch" ∷ "-D" ∷ branch ∷ [])
  forget : IsCleanup ("worktree" ∷ "prune" ∷ [])

-- What Prune relies on: a removed directory is gone, no cleanup brings one back, and git fails in a
-- directory that is not there.
pub record Cleans {World : Type 0} (os : Os World) : Type 0 where
  pub removes : (path : String) (w : World) → os.present path (os.remove_all path w) ≡ false
  pub stays_gone :
      (dir path : String) (args : List String) (w : World)
      → IsCleanup args
      → os.present path w ≡ false
      → os.present path (os.git dir args w).0 ≡ false
  pub fails_in_missing :
      (path : String) (args : List String) (w : World)
      → os.present path w ≡ false
      → (f : Failure) × ((os.git path args w).1.failure ≡ some f)

module _ {World : Type 0} (os : Os World) (reads_only : ReadsOnly os) (cleans : Cleans os) where
  clear-gone : (path : String) (w : World) → os.present path (clear os path w) ≡ false
  unfolding clear
  clear-gone path w =
      if_cases (λ v. os.present path v ≡ false) (os.present path w) _ _ (λ _. cleans.removes path w)
        (λ gone. gone)

  prune-gone :
      (path branch : String) (w : World) → os.present path (prune os path branch w).0 ≡ false
  unfolding prune
  prune-gone path branch w =
      let (w1, repo) = resolve_common_repo os path w in
      let w2 = clear os path (os.git repo ("worktree" ∷ "remove" ∷ "--force" ∷ path ∷ []) w1).0 in
      if_cases (λ (p : World × Option Error). os.present path p.0 ≡ false) (same repo "") _ _
        (λ _. clear-gone path w1)
        (λ _.
          cleans.stays_gone repo path _ _ forget
            (cleans.stays_gone repo path _ w2 (delete_branch branch) (clear-gone path _)))

  unresolved :
      (path : String) (w : World)
      → os.present path w ≡ false
      → resolve_common_repo os path w ≡ (w, "")
  unfolding resolve_common_repo
  unresolved path w gone =
      let (f, e) = cleans.fails_in_missing path ("rev-parse" ∷ "--git-common-dir" ∷ []) w gone in
      rw e (ap (λ v. (v, "")) (reads_only path _ w ask_common))

  -- Prune behind its query for the repository.
  abbrev past_resolve : String → String → World × String → World × Option Error
  past_resolve path branch (w1, repo) =
      if same repo ""
      then (clear os path w1, none)
      else let w2 =
          clear os path (os.git repo ("worktree" ∷ "remove" ∷ "--force" ∷ path ∷ []) w1).0 in
        let w3 = (os.git repo ("branch" ∷ "-D" ∷ branch ∷ []) w2).0 in
        let (w4, out) = os.git repo ("worktree" ∷ "prune" ∷ []) w3 in
        (w4, elim out.failure [ none ↦ none | some f ↦ some worktree_prune_failed ])

  clear-absent : (path : String) (w : World) → os.present path w ≡ false → clear os path w ≡ w
  unfolding clear
  clear-absent path w gone = rw gone refl

  prune-absent :
      (path branch : String) (w : World)
      → os.present path w ≡ false
      → prune os path branch w ≡ (w, none)
  unfolding prune string_dec
  prune-absent path branch w gone =
      ap (past_resolve path branch) (unresolved path w gone)
      ∙ ap (λ v. (v, none)) (clear-absent path w gone)

  -- While a removal removes, no cleanup of git brings a directory back, its queries change nothing,
  -- and it fails in a directory that is not there: however its commands end, after a Prune the
  -- worktree is gone, and a second Prune changes nothing and succeeds.
  pub prune_twice :
      (path branch : String) (w : World)
      → let w' = (prune os path branch w).0 in
        (os.present path w' ≡ false) × (prune os path branch w' ≡ (w', none))
  prune_twice path branch w =
      let gone = prune-gone path branch w in
      (gone, prune-absent path branch (prune os path branch w).0 gone)
