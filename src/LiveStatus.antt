-- ===== src/LiveStatus.antt =====
-- internal/livestatus/livestatus.go, with the wrappers of internal/mcpserver/status_map.go: the
-- status shown for a run file's status.
pub mod Laws
use pi_mcp.Prelude.{ℕ, Bool, true, false, Option, none, some, if◌then◌else◌, not, ◌&&◌}
use pi_mcp.Prelude.Clock.{sub_time, exceeds}
use pi_mcp.Config.{stale_threshold}
use pi_mcp.Model.{Status, running, stalled, completed, failed, aborted}

unfoldable pub map_disk : Status → Status
map_disk completed = completed
map_disk failed = failed
map_disk aborted = aborted
map_disk _ = running

unfoldable pub is_terminal : Status → Bool
is_terminal completed = true
is_terminal failed = true
is_terminal aborted = true
is_terminal _ = false

-- `updatedAt != nil && now.Sub(*updatedAt) > config.StaleThreshold`
unfoldable pub is_stale : Option ℕ → ℕ → Bool
unfolding sub_time exceeds
is_stale none now = false
is_stale (some updated) now = exceeds (sub_time now updated) stale_threshold

unfoldable pub derive : Status → Option ℕ → ℕ → Bool → Bool → Status
unfolding map_disk is_terminal
derive disk updated_at now pid_alive worktree_active =
    if is_terminal (map_disk disk)
    then map_disk disk
    else if not pid_alive
    then failed
    else if worktree_active
    then map_disk disk
    else if is_stale updated_at now
    then stalled
    else map_disk disk
