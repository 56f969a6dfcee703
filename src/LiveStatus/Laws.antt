-- ===== src/LiveStatus/Laws.antt =====
-- What the derived status says of a run: when it is terminal, when stalled, and how time moves it.
use pi_mcp.Prelude.{ℕ, ◌+◌, ◌<◌, ◌≡◌, ◌⊎◌, ◌↔◌, Bool, true, false, Option, some, arith}
use pi_mcp.Config.{stale_threshold}
use pi_mcp.Model.{Status, stalled}
use pi_mcp.LiveStatus.{is_terminal, is_stale, derive}

-- A time is stale exactly when it lies more than the threshold in the past.
pub is_stale_iff :
    (updated now : ℕ) → (is_stale (some updated) now ≡ true) ↔ (updated + stale_threshold < now)
unfolding is_stale
is_stale_iff updated now = ground arith

-- The shown status is terminal exactly when the run file's is, or when the process is known dead.
pub derive_terminal_iff :
    (disk : Status) (updated : Option ℕ) (now : ℕ) (alive active : Bool)
    → (is_terminal (derive disk updated now alive active) ≡ true)
      ↔ ((is_terminal disk ≡ true) ⊎ (alive ≡ false))
unfolding derive
derive_terminal_iff disk updated now alive active = ground arith

-- The shown status is `stalled` exactly when the run file's is not terminal, the process is not
-- known dead, the worktree is idle and the last update lies more than the threshold in the past.
pub derive_stalled_iff :
    (disk : Status) (updated now : ℕ) (alive active : Bool)
    → (derive disk (some updated) now alive active ≡ stalled) ↔ (
        (is_terminal disk ≡ false)
        × (alive ≡ true)
        × (active ≡ false)
        × (updated + stale_threshold < now))
unfolding derive is_stale
derive_stalled_iff disk updated now alive active = ground arith
