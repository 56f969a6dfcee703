-- ===== src/Jobs/Liveness.antt =====
-- internal/jobs/liveness.go: the status of a record, corrected by time and by its process.
use pi_mcp.Prelude.{
  ℕ, ◌+◌, ◌<◌, ◌≡◌, ◌⊎◌, ◌↔◌, Bool, true, false, ◌&&◌, not, arith, if◌then◌else◌, ◌==◌,
}
use pi_mcp.Prelude.Clock.{sub_time, exceeds}
use pi_mcp.Config.{stale_threshold}
use pi_mcp.Model.{JobRecord, Status, queued, running, completed, failed, aborted}
use pi_mcp.Jobs.Reconcile.{pid_alive}

running_status : JobRecord → ℕ → Bool → (ℕ → Bool) → ℕ → Status
running_status rec updated_at same_session signal now =
    if not (updated_at == 0) && exceeds (sub_time now updated_at) stale_threshold
    then failed
    else if same_session && not (pid_alive signal rec.pid)
    then failed
    else running

by_status : Status → Status → Status
by_status completed live = completed
by_status failed live = failed
by_status aborted live = aborted
by_status queued live = queued
by_status running live = live
by_status status live = status

-- The zero time is 0.
unfoldable pub effective_status : JobRecord → ℕ → Bool → (ℕ → Bool) → ℕ → Status
unfolding by_status running_status sub_time exceeds
effective_status rec updated_at same_session signal now =
    by_status rec.status (running_status rec updated_at same_session signal now)

-- For a running record with a known last transition, the override says `failed` exactly when that
-- transition lies more than the threshold in the past, or the record is of this session and its
-- process is dead.
pub effective_status_running_iff :
    (rec : JobRecord) (updated_at now : ℕ) (same_session : Bool) (signal : ℕ → Bool)
    → rec.status ≡ running
    → 0 < updated_at
    → (effective_status rec updated_at same_session signal now ≡ failed) ↔ (
        (updated_at + stale_threshold < now)
        ⊎ ((same_session ≡ true) × (pid_alive signal rec.pid ≡ false)))
unfolding effective_status
effective_status_running_iff rec updated_at now same_session signal r set = ground arith
