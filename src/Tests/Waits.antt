-- ===== src/Tests/Waits.antt =====
-- A long poll on a run, at the theorems about its end.
use pi_mcp.Prelude.{ℕ, ◌≡◌, refl, true, false, none, some, [], ◌∷◌, string_dec}
use pi_mcp.Prelude.Clock.{sub_time, exceeds}
use pi_mcp.Model.{Run}
use pi_mcp.LiveStatus.{map_disk, is_terminal, derive, is_stale}
use pi_mcp.McpServer.Delta.{Tracker}
use pi_mcp.McpServer.Status.{found, worktree_active}
use pi_mcp.McpServer.Wait.{
  snapshot_of, wake_changed, last_activity, Look, Waiting, stalled_now, returns, turn, turns, look,
  compare, warn, wait_for_change,
}
use pi_mcp.McpServer.Wait.Ends.{some_change, wait_for_change_ends, turns_miss_nothing}
use pi_mcp.Tests.Answers.{run, tracker}

abbrev look_at : ℕ → Run → Look
look_at now r = record {
  now = now;
  loaded = found r;
  activity = none;
  alive = true;
  cancelled = false;
}

abbrev waiting : Waiting
waiting = record {
  base = some record { snapshot = snapshot_of run; was_stalled = false };
  saw_blind = false;
  tracker = tracker;
}

wait_for_change_ends_example :
    (d : Tracker) × (wait_for_change "a" 2 5 (look_at 3 run ∷ look_at 7 run ∷ []) tracker
      ≡ returns d)
wait_for_change_ends_example =
    wait_for_change_ends "a" 2 5 (look_at 3 run ∷ look_at 7 run ∷ []) tracker refl

turns_miss_nothing_example :
    some_change (snapshot_of run) (look_at 3 run ∷ look_at 4 run ∷ []) ≡ false
unfolding turns turn look compare warn wake_changed snapshot_of string_dec stalled_now derive
    map_disk is_terminal is_stale sub_time exceeds last_activity worktree_active
turns_miss_nothing_example =
    turns_miss_nothing "a" 9 (look_at 3 run ∷ look_at 4 run ∷ [])
      (record { snapshot = snapshot_of run; was_stalled = false }) waiting waiting refl refl
