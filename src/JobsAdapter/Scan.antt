-- ===== src/JobsAdapter/Scan.antt =====
-- The scan of a worktree against the list of the files in it.
use pi_mcp.Prelude.{
  ℕ, suc, ◌+◌, ◌≤◌, ◌≡◌, refl, sym, ap, ◌∙◌, inl, inr, Bool, true, false, not, ◌&&◌, ◌||◌, ◌⊎◌,
  ◌==◌, ltb, Option, none, some, List, [], ◌∷◌, ◌++◌, arith, if◌then◌else◌, if_cases, length,
  length-append, All,
}
use pi_mcp.JobsAdapter.Tree.{
  Node, file, special, folder, Nodes, no_nodes, cons, bookkeeping, later, count_file, scan_node,
  scan_nodes, scan_worktree_activity,
}

abbrev of_info : Option ℕ → List ℕ
of_info none = []
of_info (some t) = t ∷ []

-- The times of the regular files that stand in no bookkeeping entry, in the order of the walk.
mutual
  pub times_of : Bool → Node → List ℕ
  times_of root (file name info) = if not root && bookkeeping name then [] else of_info info
  times_of root (special name info) = []
  times_of root (folder name nodes) =
      let below = times_below nodes in if not root && bookkeeping name then [] else below

  pub times_below : Nodes → List ℕ
  times_below no_nodes = []
  times_below (cons n nodes) = times_of false n ++ times_below nodes

abbrev pub times_in : Option Node → List ℕ
times_in none = []
times_in (some root) = times_of true root

abbrev pub latest : ℕ → List ℕ → ℕ
latest t [] = t
latest t (u ∷ us) = latest (later t u) us

-- The count and the latest time of a list on top of those so far.
latest-append : (t : ℕ) (us vs : List ℕ) → latest t (us ++ vs) ≡ latest (latest t us) vs
latest-append t [] vs = refl
latest-append t (u ∷ us) vs = latest-append (later t u) us vs

abbrev on_top : List ℕ → ℕ × ℕ → ℕ × ℕ
on_top ts (files, newest) = (files + length ts, latest newest ts)

on_top-append : (ts us : List ℕ) (acc : ℕ × ℕ) → on_top us (on_top ts acc) ≡ on_top (ts ++ us) acc
on_top-append ts us (files, newest) =
    let n : files + length ts + length us ≡ files + length (ts ++ us) =
      omega (arith, length-append ts us) in
    ap (λ m. (m, latest (latest newest ts) us)) n
    ∙ ap (λ t. (files + length (ts ++ us), t)) (sym (latest-append newest ts us))

on_top-nil : (acc : ℕ × ℕ) → acc ≡ on_top [] acc
on_top-nil (files, newest) = let n : files ≡ files + 0 = omega arith in ap (λ m. (m, newest)) n

skipped :
    (b : Bool) (x : ℕ × ℕ) (ts : List ℕ) (acc : ℕ × ℕ)
    → x ≡ on_top ts acc
    → (if b then acc else x) ≡ on_top (if b then [] else ts) acc
skipped true x ts acc h = on_top-nil acc
skipped false x ts acc h = h

count_file_lem : (info : Option ℕ) (acc : ℕ × ℕ) → count_file info acc ≡ on_top (of_info info) acc
unfolding count_file
count_file_lem none (files, newest) = on_top-nil (files, newest)
count_file_lem (some t) (files, newest) =
    let n : suc files ≡ files + 1 = omega arith in ap (λ m. (m, later newest t)) n

mutual
  unfolding scan_node times_of

  node_lem :
      (root : Bool) (n : Node) (acc : ℕ × ℕ) → scan_node root n acc ≡ on_top (times_of root n) acc
  node_lem root (file name info) acc =
      skipped (not root && bookkeeping name) _ _ acc (count_file_lem info acc)
  node_lem root (special name info) acc = on_top-nil acc
  node_lem root (folder name nodes) acc =
      skipped (not root && bookkeeping name) _ _ acc (nodes_lem nodes acc)

  nodes_lem : (nodes : Nodes) (acc : ℕ × ℕ) → scan_nodes nodes acc ≡ on_top (times_below nodes) acc
  nodes_lem no_nodes acc = on_top-nil acc
  nodes_lem (cons n nodes) acc =
      ap (scan_nodes nodes) (node_lem false n acc)
      ∙ nodes_lem nodes (on_top (times_of false n) acc)
      ∙ on_top-append (times_of false n) (times_below nodes) acc

latest-start : (t : ℕ) (us : List ℕ) → t ≤ latest t us
latest-start t [] = omega arith
latest-start t (u ∷ us) = ground (arith, latest-start (later t u) us)

latest-All : (t : ℕ) (us : List ℕ) → All (λ u. u ≤ latest t us) us
latest-All t [] = tt
latest-All t (u ∷ us) = (ground (arith, latest-start (later t u) us), latest-All (later t u) us)

abbrev pub has : ℕ → List ℕ → Bool
has t [] = false
has t (u ∷ us) = u == t || has t us

latest-has : (t : ℕ) (us : List ℕ) → (latest t us ≡ t) ⊎ (has (latest t us) us ≡ true)
latest-has t [] = inl refl
latest-has t (u ∷ us) = elim (latest-has (later t u) us) [
  | inl e ↦
      if_cases
        (λ s. s ≡ later t u → (latest t (u ∷ us) ≡ t) ⊎ (has (latest t (u ∷ us)) (u ∷ us) ≡ true))
        (ltb t u) _ _ (λ _ p. inr (ground arith)) (λ _ p. inl (e ∙ sym p)) refl
  | inr h ↦ inr (ground arith)
]

-- The scan of a worktree counts the regular files that stand in no bookkeeping entry and can be
-- looked at, however the directories nest, and yields the latest of their times: no file changed
-- later, and if it is not zero, one changed then.
pub scan_worktree_activity_lem :
    (root : Option Node)
    → let (files, newest) = scan_worktree_activity root in
      let ts = times_in root in
      (files ≡ length ts) × All (λ t. t ≤ newest) ts × ((newest ≡ 0) ⊎ (has newest ts ≡ true))
unfolding scan_worktree_activity
scan_worktree_activity_lem none = (refl, tt, inl refl)
scan_worktree_activity_lem (some root) =
    rw (node_lem true root (0, 0))
      (omega arith, latest-All 0 (times_of true root), latest-has 0 (times_of true root))
