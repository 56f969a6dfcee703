-- ===== src/Dashboard/Activity.antt =====
-- internal/dashboard/worktree.go: whether the worktree of a write job was changed lately.
use pi_mcp.Prelude.{
  ℕ, suc, ◌+◌, ◌≡◌, inl, inr, Bool, true, false, not, ◌&&◌, ◌||◌, String, Option, none, some, arith,
  ◌==◌, ltb, leb, same, if◌then◌else◌, Bool-cases,
}
use pi_mcp.Prelude.Clock.{ℤ, pos, negsuc, sub_time, max_duration}
use pi_mcp.Config.{stale_threshold}
use pi_mcp.JobsAdapter.Tree.{Node, file, special, folder, Nodes, no_nodes, cons, bookkeeping, later}

abbrev pub newer : Option ℕ → ℕ → ℕ
newer none newest = newest
newer (some t) newest = later newest t

-- The latest time of change, going on from the one so far. `inside` says that the path of the root
-- itself lies in a bookkeeping directory, as every path below it then does.
unfoldable mutual
  pub newest_in : Bool → Bool → Node → ℕ → ℕ
  newest_in inside root (file name info) t = if inside then t else newer info t
  newest_in inside root (special name info) t = if inside then t else newer info t
  newest_in inside root (folder name nodes) t =
      let below = newest_below inside nodes t in if not root && bookkeeping name then t else below

  pub newest_below : Bool → Nodes → ℕ → ℕ
  newest_below inside no_nodes t = t
  newest_below inside (cons n nodes) t = newest_below inside nodes (newest_in inside false n t)

unfoldable pub newest_time : Bool → Option Node → ℕ
unfolding newest_in
newest_time inside none = 0
newest_time inside (some root) = newest_in inside true root 0

-- `if d < 0 { d = -d }` on int64, where the least number is its own negation.
unfoldable pub distance : ℤ → ℤ
distance (pos n) = pos n
distance (negsuc n) = if n == max_duration then negsuc n else pos (suc n)

-- `d <= bound`, for a bound that is not negative.
unfoldable pub at_most : ℤ → ℕ → Bool
at_most (pos n) bound = leb n bound
at_most (negsuc n) bound = true

unfoldable pub worktree_active : String → Bool → Option Node → ℕ → Bool
unfolding newest_time sub_time distance at_most
worktree_active dir inside tree now =
    if same dir ""
    then false
    else let newest = newest_time inside tree in
      if newest == 0 then false else at_most (distance (sub_time now newest)) stale_threshold

abbrev near : ℕ → ℕ → Bool
near now t =
    (leb t (now + stale_threshold) && leb now (t + stale_threshold)) || ltb (now + max_duration) t

near_past :
    (now t : ℕ)
    → leb t now ≡ true
    → at_most (distance (sub_time now t)) stale_threshold ≡ near now t
unfolding at_most distance sub_time
near_past now t h = ground arith

near_future :
    (now t : ℕ)
    → leb t now ≡ false
    → at_most (distance (sub_time now t)) stale_threshold ≡ near now t
unfolding at_most distance sub_time
near_future now t h = ground arith

-- A worktree with a name counts as active exactly if something in it has a time of change and the
-- latest one is at most the threshold before or behind now, or more than the largest duration behind
-- now.
pub worktree_active_iff :
    (dir : String) (inside : Bool) (tree : Option Node) (now : ℕ)
    → let newest = newest_time inside tree in
      worktree_active dir inside tree now ≡ (
        not (same dir "")
        && (not (newest == 0)
            && ((leb newest (now + stale_threshold) && leb now (newest + stale_threshold))
                || ltb (now + max_duration) newest)))
unfolding worktree_active
worktree_active_iff dir inside tree now =
    let newest = newest_time inside tree in
    elim (Bool-cases (leb newest now)) [
      | inl past ↦ ground (arith, near_past now newest past)
      | inr future ↦ ground (arith, near_future now newest future)
    ]
