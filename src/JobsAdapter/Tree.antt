-- ===== src/JobsAdapter/Tree.antt =====
-- filepath.WalkDir over a file tree, in scanWorktreeActivity (internal/app/jobs_adapter.go) and in
-- WorktreeActive (internal/dashboard/worktree.go).
use pi_mcp.Prelude.{
  ℕ, suc, Bool, true, false, not, ◌&&◌, ◌||◌, String, Option, none, some, ltb, same, if◌then◌else◌,
}

-- An entry that cannot be read is a directory without entries or a file without a time. A time of 0
-- is the zero time. `special` is a link, a device or a socket.
mutual
  pub data Node : Type 0 where
    file : String → Option ℕ → Node
    special : String → Option ℕ → Node
    folder : String → Nodes → Node

  pub data Nodes : Type 0 where
    no_nodes : Nodes
    cons : Node → Nodes → Nodes

abbrev pub bookkeeping : String → Bool
bookkeeping name = same name ".git" || same name ".pi"

-- `info.ModTime().After(newest)`
abbrev pub later : ℕ → ℕ → ℕ
later newest t = if ltb newest t then t else newest

unfoldable pub count_file : Option ℕ → ℕ × ℕ → ℕ × ℕ
count_file none (files, newest) = (files, newest)
count_file (some t) (files, newest) = (suc files, later newest t)

-- The count of files and the latest time, going on from those so far. Only the root may have the
-- name of a bookkeeping entry.
unfoldable mutual
  unfolding count_file

  pub scan_node : Bool → Node → ℕ × ℕ → ℕ × ℕ
  scan_node root (file name info) acc =
      if not root && bookkeeping name then acc else count_file info acc
  scan_node root (special name info) acc = acc
  scan_node root (folder name nodes) acc =
      let below = scan_nodes nodes acc in if not root && bookkeeping name then acc else below

  pub scan_nodes : Nodes → ℕ × ℕ → ℕ × ℕ
  scan_nodes no_nodes acc = acc
  scan_nodes (cons n nodes) acc = scan_nodes nodes (scan_node false n acc)

-- A root that is missing has no files.
unfoldable pub scan_worktree_activity : Option Node → ℕ × ℕ
unfolding scan_node
scan_worktree_activity none = (0, 0)
scan_worktree_activity (some root) = scan_node true root (0, 0)
