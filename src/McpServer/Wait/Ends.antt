-- ===== src/McpServer/Wait/Ends.antt =====
-- When the long poll ends: at the latest at the deadline, at each change, and for no other reason.
use pi_mcp.Prelude.{
  ℕ, ◌+◌, ◌≤◌, ◌<◌, ◌≡◌, ◌⊎◌, inl, inr, refl, Bool, true, false, ◌||◌, String, some, List, [], ◌∷◌,
  arith, leb, Option-cases,
}
use pi_mcp.Prelude.Clock.{sub_time, exceeds}
use pi_mcp.Config.{early_inactivity_warn}
use pi_mcp.Model.{Run}
use pi_mcp.McpServer.Delta.{Tracker}
use pi_mcp.McpServer.Status.{Loaded, found, absent, broken}
use pi_mcp.McpServer.Wait.{
  Snapshot, snapshot_of, wake_changed, last_activity, Look, Base, Waiting, stalled_now, Turn,
  returns, goes_on, fired, warn, compare, look, turn, turns, wait_for_change,
}

-- A turn happens at or after the deadline.
abbrev pub some_late : ℕ → List Look → Bool
some_late deadline [] = false
some_late deadline (l ∷ ls) = leb deadline l.now || some_late deadline ls

Turn-cases : (t : Turn) → ((d : Tracker) × (t ≡ returns d)) ⊎ ((w : Waiting) × (t ≡ goes_on w))
Turn-cases (returns d) = inl (d, refl)
Turn-cases (goes_on w) = inr (w, refl)

late_returns :
    (key : String) (deadline : ℕ) (l : Look) (w w' : Waiting)
    → turn key deadline l w ≡ goes_on w'
    → leb deadline l.now ≡ false
unfolding turn
late_returns key deadline l w w' e = elim (Turn-cases (look key l l.loaded w)) [
  | inl (d, p) ↦ ground arith
  | inr (w'', p) ↦ ground arith
]

turns_end :
    (key : String) (deadline : ℕ) (ls : List Look) (w : Waiting)
    → some_late deadline ls ≡ true
    → (d : Tracker) × (turns key deadline ls w ≡ returns d)
unfolding turns
turns_end key deadline [] w h = ground arith
turns_end key deadline (l ∷ ls) w h = elim (Turn-cases (turn key deadline l w)) [
  | inl (d, p) ↦ (d, rw (p, turns) refl)
  | inr (w', p) ↦
      let (d, q) =
        turns_end key deadline ls w' (ground (arith, late_returns key deadline l w w' p)) in
      (d, rw (p, turns) q)
]

-- The poll returns at the latest in the first turn at or after the deadline, whatever the turns see.
pub wait_for_change_ends :
    (key : String) (start wait_cap : ℕ) (looks : List Look) (d : Tracker)
    → some_late (start + wait_cap) looks ≡ true
    → (d' : Tracker) × (wait_for_change key start wait_cap looks d ≡ returns d')
unfolding wait_for_change
wait_for_change_ends key start wait_cap looks d h = turns_end key (start + wait_cap) looks _ h

-- A turn sees a change against a snapshot: an end, a longer journal, more agents, another phase.
abbrev pub sees_change : Snapshot → Loaded → Bool
sees_change snap (found run) = wake_changed snap (snapshot_of run)
sees_change snap absent = false
sees_change snap broken = false

abbrev pub some_change : Snapshot → List Look → Bool
some_change snap [] = false
some_change snap (l ∷ ls) = sees_change snap l.loaded || some_change snap ls

warn_goes_on :
    (key : String) (l : Look) (run : Run) (w w' : Waiting)
    → warn key l run w ≡ goes_on w'
    → w'.base ≡ w.base
unfolding warn fired
warn_goes_on key l run w w' e = ground arith

-- A turn that goes on has seen no change, and keeps the base.
look_goes_on :
    (key : String) (l : Look) (ld : Loaded) (b : Base) (w w' : Waiting)
    → w.base ≡ some b
    → look key l ld w ≡ goes_on w'
    → (w'.base ≡ some b) × (sees_change b.snapshot ld ≡ false)
unfolding look compare
look_goes_on key l (found run) b w w' h e = ground (arith, warn_goes_on key l run w w')
look_goes_on key l absent b w w' h e = ground arith
look_goes_on key l broken b w w' h e = ground arith

turn_goes_on :
    (key : String) (deadline : ℕ) (l : Look) (b : Base) (w w' : Waiting)
    → w.base ≡ some b
    → turn key deadline l w ≡ goes_on w'
    → (w'.base ≡ some b) × (sees_change b.snapshot l.loaded ≡ false)
unfolding turn
turn_goes_on key deadline l b w w' h e = ground (arith, look_goes_on key l l.loaded b w w' h)

-- No change is missed: while the poll still waits, no turn since the base has seen a change.
pub turns_miss_nothing :
    (key : String) (deadline : ℕ) (ls : List Look) (b : Base) (w w' : Waiting)
    → w.base ≡ some b
    → turns key deadline ls w ≡ goes_on w'
    → some_change b.snapshot ls ≡ false
unfolding turns
turns_miss_nothing key deadline [] b w w' h e = refl
turns_miss_nothing key deadline (l ∷ ls) b w w' h e = elim (Turn-cases (turn key deadline l w)) [
  | inl (d, p) ↦ ground arith
  | inr (w'', p) ↦
      ground (
        arith,
        turn_goes_on key deadline l b w w'' h p,
        turns_miss_nothing key deadline ls b w'' w',
      )
]

warn_returns :
    (key : String) (l : Look) (run : Run) (w : Waiting) (d : Tracker)
    → warn key l run w ≡ returns d
    → (la : ℕ) × (last_activity run l.activity ≡ some la) × (la + early_inactivity_warn < l.now)
unfolding warn sub_time exceeds
warn_returns key l run w d e = elim (Option-cases (last_activity run l.activity)) [
  | inl p ↦ ground arith
  | inr (la, p) ↦ (la, p, ground arith)
]

-- A poll with a base returns only at a change, a new stall, an activity that is older than the
-- warning's age, the deadline, or the end of the caller's context.
pub turn_returns :
    (key : String) (deadline : ℕ) (l : Look) (run : Run) (b : Base) (w : Waiting) (d : Tracker)
    → l.loaded ≡ found run
    → w.base ≡ some b
    → turn key deadline l w ≡ returns d
    → (wake_changed b.snapshot (snapshot_of run) ≡ true)
      ⊎ ((stalled_now l run ≡ true) × (b.was_stalled ≡ false))
      ⊎ ((la : ℕ) × (last_activity run l.activity ≡ some la) × (la + early_inactivity_warn < l.now))
      ⊎ (deadline ≤ l.now)
      ⊎ (l.cancelled ≡ true)
unfolding turn look compare
turn_returns key deadline l run b w d e h r = elim (Turn-cases (warn key l run w)) [
  | inl (d', p) ↦ inr (inr (inl (warn_returns key l run w d' p)))
  | inr (w', p) ↦ ground arith
]
