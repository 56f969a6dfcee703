-- ===== src/McpServer/Wait.antt =====
-- internal/mcpserver/handler_status.go, waitForChange: the long poll. Each turn of the loop looks at
-- the clock, the run file, the worktree and the process once.
pub mod Ends
use pi_mcp.Prelude.{
  ℕ, ◌+◌, Bool, true, false, ◌&&◌, ◌||◌, not, String, Option, none, some, List, [], ◌∷◌, ltb, same,
  if◌then◌else◌, length,
}
use pi_mcp.Prelude.Clock.{sub_time, exceeds}
use pi_mcp.Config.{early_inactivity_warn}
use pi_mcp.Model.{Status, Run, stalled}
use pi_mcp.LiveStatus.{map_disk, is_terminal, derive}
use pi_mcp.McpServer.Delta.{Tracker, should_warn}
use pi_mcp.McpServer.Status.{Loaded, found, absent, broken, worktree_active}

pub record Snapshot : Type 0 where
  pub journal_len : ℕ
  pub agents_len : ℕ
  pub phase : String
  pub terminal : Bool

unfoldable pub snapshot_of : Run → Snapshot
snapshot_of run = record {
  journal_len = length run.journal;
  agents_len = length run.agents;
  phase = elim run.current_phase [ none ↦ "" | some ph ↦ ph ];
  terminal = is_terminal (map_disk run.status);
}

unfoldable pub wake_changed : Snapshot → Snapshot → Bool
wake_changed prev cur =
    cur.terminal
    || ltb prev.journal_len cur.journal_len
    || ltb prev.agents_len cur.agents_len
    || not (same cur.phase prev.phase)

unfoldable pub last_activity : Run → Option (ℕ × ℕ) → Option ℕ
last_activity run none = run.updated_at
last_activity run (some (files, last)) = elim run.updated_at [
  | none ↦ if ltb 0 last then some last else none
  | some t ↦ if ltb t last then some last else some t
]

-- What a turn sees. `cancelled` says that the caller's context ends before the next turn.
pub record Look : Type 0 where
  pub now : ℕ
  pub loaded : Loaded
  pub activity : Option (ℕ × ℕ)
  pub alive : Bool
  pub cancelled : Bool

pub record Base : Type 0 where
  pub snapshot : Snapshot
  pub was_stalled : Bool

pub record Waiting : Type 0 where
  pub base : Option Base
  pub saw_blind : Bool
  pub tracker : Tracker

abbrev pub is_stalled : Status → Bool
is_stalled stalled = true
is_stalled _ = false

unfoldable pub stalled_now : Look → Run → Bool
stalled_now l run =
    is_stalled (derive run.status run.updated_at l.now l.alive (worktree_active l.now l.activity))

-- A turn returns, with the tracker, or goes on.
pub data Turn : Type 0 where
  returns : Tracker → Turn
  goes_on : Waiting → Turn

fired : Bool × Tracker → Waiting → Turn
fired (fires, d) w = if fires then returns d else goes_on (record w { tracker = d })

-- The early warning.
unfoldable pub warn : String → Look → Run → Waiting → Turn
unfolding last_activity fired
warn key l run w = elim (last_activity run l.activity) [
  | none ↦ goes_on w
  | some la ↦
      if exceeds (sub_time l.now la) early_inactivity_warn
      then fired (should_warn key la w.tracker) w
      else goes_on w
]

unfoldable pub compare : String → Look → Run → Base → Waiting → Turn
unfolding warn
compare key l run base w =
    if wake_changed base.snapshot (snapshot_of run) || (stalled_now l run && not base.was_stalled)
    then returns w.tracker
    else warn key l run w

unfoldable pub look : String → Look → Loaded → Waiting → Turn
unfolding compare warn
look key l (found run) w = elim w.base [
  | some base ↦ compare key l run base w
  | none ↦
      if w.saw_blind || (snapshot_of run).terminal
      then returns w.tracker
      else warn key l run (record w {
        base = some record { snapshot = snapshot_of run; was_stalled = stalled_now l run };
      })
]
look key l absent w = goes_on (record w { saw_blind = true })
look key l broken w = goes_on (record w { saw_blind = true })

-- The deadline and the select.
unfoldable pub turn : String → ℕ → Look → Waiting → Turn
unfolding look
turn key deadline l w = elim (look key l l.loaded w) [
  | returns d ↦ returns d
  | goes_on w' ↦ if not (ltb l.now deadline) || l.cancelled then returns w'.tracker else goes_on w'
]

unfoldable pub turns : String → ℕ → List Look → Waiting → Turn
unfolding turn
turns key deadline [] w = goes_on w
turns key deadline (l ∷ ls) w = elim (turn key deadline l w) [
  | returns d ↦ returns d
  | goes_on w' ↦ turns key deadline ls w'
]

-- The loop over the looks of its turns. The deadline is the start and the cap.
unfoldable pub wait_for_change : String → ℕ → ℕ → List Look → Tracker → Turn
unfolding turns
wait_for_change key start wait_cap looks d =
    turns key (start + wait_cap) looks (record { base = none; saw_blind = false; tracker = d })
