-- ===== src/Jobs/Registry/Steps/Safety.antt =====
-- The invariant holds after any calls and moves.
use pi_mcp.Prelude.{ℕ, ◌≡◌, inl, inr, refl, ap, String, none, some, arith, if_cases, Option-cases}
use pi_mcp.Prelude.Clock.{ℤ}
use pi_mcp.Prelude.Dict.{lookup, count}
use pi_mcp.Jobs.Store.{Store}
use pi_mcp.Jobs.Job.{
  Phase, Correlate, Job, launching, tail, ready, waiting, retrying, relaunching, undecided,
  finishing, awaiting, polling, job_id_of,
}
use pi_mcp.Jobs.Registry.{Registry, Env, new_registry}
use pi_mcp.Jobs.Registry.Launch.{is_over}
use pi_mcp.Jobs.Registry.Steps.{
  Move, Event, submits, cancels, closes, moves, by_phase, by_correlate, move, step,
}
use pi_mcp.Jobs.Registry.Steps.Invariant.{Inv, holds_slot}
use pi_mcp.Jobs.Registry.Steps.Locals.{
  launched-Inv, launch_failed-Inv, begin_attempt-Inv, after_wait-Inv, decide-Inv, reset_attempt-Inv,
  relaunched-Inv, session_event-Inv, poll_run-Inv, stop_correlate-Inv, kill-Inv,
}
use pi_mcp.Jobs.Registry.Steps.Slots.{submit-Inv, close-Inv}
use pi_mcp.Jobs.Registry.Steps.Endings.{finish-Inv, finish_tail-Inv, cancel-Inv}

module _ (env : Env) (id : String) (j : Job) (r : Registry) (v : Inv r)
    (e : lookup id r.jobs ≡ some j) where
  by_phase-Inv : (p : Phase) (m : Move) → j.phase ≡ p → Inv (by_phase p m env id j r)
  unfolding by_phase
  by_phase-Inv launching (Move.launches pid) p = launched-Inv env id j r v e pid p
  by_phase-Inv launching (Move.launch_fails msg) p =
      launch_failed-Inv env id j r v e msg (ap holds_slot p)
  by_phase-Inv (ready n) Move.begins p = begin_attempt-Inv env id j r v e n p
  by_phase-Inv (waiting n) (Move.waits res) p = after_wait-Inv env id j r v e n res p
  by_phase-Inv (undecided n msg) (Move.decides has_run_file) p =
      decide-Inv env id j r v e has_run_file n msg p
  by_phase-Inv (retrying n) Move.resets p = reset_attempt-Inv env id j r v e n p
  by_phase-Inv (relaunching n) (Move.launches pid) p = relaunched-Inv env id j r v e n pid p
  by_phase-Inv (relaunching n) (Move.launch_fails msg) p =
      launch_failed-Inv env id j r v e msg (ap holds_slot p)
  by_phase-Inv (finishing status code msg) Move.finishes p =
      if_cases Inv (is_over j.correlated) _ _ (λ _. finish-Inv env id j r v e status code msg p)
        (λ _. v)
  by_phase-Inv tail (Move.ends snap) p = finish_tail-Inv env id j r v e snap p
  by_phase-Inv _ _ p = v

  by_correlate-Inv : (c : Correlate) (m : Move) → Inv (by_correlate c m env id j r)
  unfolding by_correlate
  by_correlate-Inv awaiting (Move.session sid found) = session_event-Inv env id j r v e found sid
  by_correlate-Inv awaiting Move.stops = stop_correlate-Inv env id j r v e
  by_correlate-Inv (polling sid) (Move.polls found) = poll_run-Inv env id j r v e found
  by_correlate-Inv (polling sid) Move.stops = stop_correlate-Inv env id j r v e
  by_correlate-Inv _ _ = v

  move-Inv : (m : Move) → Inv (move m env id j r)
  unfolding move
  move-Inv Move.kills = kill-Inv env id j r v e
  move-Inv (Move.session sid found) = by_correlate-Inv j.correlated (Move.session sid found)
  move-Inv (Move.polls found) = by_correlate-Inv j.correlated (Move.polls found)
  move-Inv Move.stops = by_correlate-Inv j.correlated Move.stops
  move-Inv m = by_phase-Inv j.phase m refl

-- A submit mints a new id: the uuid library's promise, and that of the caller who assigns one.
abbrev pub IsFresh : Event → Registry → Type 0
IsFresh (submits minted spec) r = lookup (job_id_of minted spec) r.jobs ≡ none
IsFresh e r = Unit {0}

-- Every call and every move of a goroutine keeps the invariant.
pub step-Inv : (env : Env) (e : Event) (r : Registry) → IsFresh e r → Inv r → Inv (step env e r)
unfolding step
step-Inv env (submits minted spec) r new v = submit-Inv env minted spec r v new
step-Inv env (cancels id) r f v = cancel-Inv env id r v
step-Inv env closes r f v = close-Inv env r v
step-Inv env (moves id m) r f v = elim (Option-cases (lookup id r.jobs)) [
  | inl e ↦ rw (e, step) v
  | inr (j, e) ↦ rw (e, step) (move-Inv env id j r v e m)
]

new_registry-Inv :
    (cap : ℕ) (pid : ℤ) (started_at : String) (store : Store)
    → Inv (new_registry cap pid started_at store)
unfolding new_registry lookup count
new_registry-Inv limit pid started_at store = record {
  sound = λ k j h. cc;
  named = λ k j h. cc;
  nodup = tt;
  counted = refl;
  capped = omega arith;
  lined_up = λ k h. cc;
  unique = tt;
  full = λ c q. cc;
  calm = refl;
}

-- The registries that a server can reach from its start, by calls and moves in any order.
pub data Reachable : Registry → Type 0 where
  start :
      (cap : ℕ) (pid : ℤ) (started_at : String) (store : Store)
      → Reachable (new_registry cap pid started_at store)
  next :
      {r : Registry}
      → Reachable r
      → (env : Env) (e : Event) → IsFresh e r
      → Reachable (step env e r)

pub Reachable-Inv : {r : Registry} → Reachable r → Inv r
Reachable-Inv (start limit pid started_at store) = new_registry-Inv limit pid started_at store
Reachable-Inv (next {r} w env e f) = step-Inv env e r f (Reachable-Inv w)
