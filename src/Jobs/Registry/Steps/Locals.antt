-- ===== src/Jobs/Registry/Steps/Locals.antt =====
-- The sections that move one job and touch neither the queue nor a slot keep the invariant.
use pi_mcp.Prelude.{
  ℕ, subst, sym, ◌≡◌, refl, Bool, true, String, Option, none, some, arith, same, if_cases, ◌||◌,
  ltb, not, ◌&&◌,
}
use pi_mcp.Prelude.Clock.{ℤ}
use pi_mcp.Prelude.Dict.{lookup, lookup-insert, count-insert, NodupKeys, insert-NodupKeys}
use pi_mcp.LiveStatus.{is_terminal}
use pi_mcp.Jobs.Store.Ownership.{Distinct}
use pi_mcp.Config.{max_authoring_retries}
use pi_mcp.Model.{is_aborted}
use pi_mcp.Jobs.Job.{Job, launching, ready, waiting, undecided, retrying, relaunching}
use pi_mcp.Jobs.Registry.Launch.{
  launched, launch_failed, begin_attempt, after_wait, decide, is_live, is_over, reset_attempt,
  relaunched,
}
use pi_mcp.Jobs.Registry.{Registry, Env, put, flush}
use pi_mcp.Jobs.Registry.Correlation.{resolve_run, session_event, poll_run, stop_correlate}
use pi_mcp.Jobs.Registry.Steps.{kill}
use pi_mcp.Jobs.Registry.Steps.Invariant.{IsSound, Inv, holder, holds_slot, is_idle}

-- Two registries that differ in the table and the prunes at most.
pub record SameCore (r r' : Registry) : Type 0 where
  pub jobs : r'.jobs ≡ r.jobs
  pub queue : r'.queue ≡ r.queue
  pub slots : r'.slots ≡ r.slots
  pub cap : r'.cap ≡ r.cap
  pub closed : r'.closed ≡ r.closed
  pub panicked : r'.panicked ≡ r.panicked

pub core-Inv : (r r' : Registry) → Inv r → SameCore r r' → Inv r'
core-Inv r r' v c = record {
  sound = λ k j h. v.sound k j (ground arith);
  named = λ k j h. v.named k j (ground arith);
  nodup = subst NodupKeys (sym c.jobs) v.nodup;
  counted = ground (arith, v.counted);
  capped = ground (arith, v.capped);
  lined_up = λ k h. ground (arith, v.lined_up k);
  unique = subst Distinct (sym c.queue) v.unique;
  full = ground (arith, v.full);
  calm = ground (arith, v.calm);
}

pub flush-SameCore : (env : Env) (r : Registry) → SameCore r (flush env r)
unfolding flush
flush-SameCore env r = ground arith

pub flush-Inv : (env : Env) (r : Registry) → Inv r → Inv (flush env r)
flush-Inv env r v = core-Inv r (flush env r) v (flush-SameCore env r)

pub put-Inv :
    (id : String) (j j' : Job) (r : Registry)
    → Inv r
    → lookup id r.jobs ≡ some j
    → j'.rec.job_id ≡ j.rec.job_id
    → holds_slot j'.phase ≡ holds_slot j.phase
    → is_idle j'.phase ≡ is_idle j.phase
    → IsSound j'
    → Inv (put id j' r)
put-Inv id j j' r v e same_name same_slot same_place sound = record {
  sound = λ k i h. ground (arith, lookup-insert k id j' r.jobs, v.sound k i);
  named = λ k i h. ground (arith, lookup-insert k id j' r.jobs, v.named k i, v.named id j e);
  nodup = insert-NodupKeys id j' r.jobs v.nodup;
  counted = ground (arith, v.counted, count-insert holder id j' j r.jobs);
  capped = v.capped;
  lined_up = λ k h. ground (arith, lookup-insert k id j' r.jobs, v.lined_up k h);
  unique = v.unique;
  full = v.full;
  calm = v.calm;
}

-- The places where a job stands while a goroutine runs it.
module _ (env : Env) (id : String) (j : Job) (r : Registry) (v : Inv r)
    (e : lookup id r.jobs ≡ some j) where
  s : IsSound j
  s = v.sound id j e

  -- A move within the phases that hold a slot.
  inside :
      (j' : Job)
      → j'.rec.job_id ≡ j.rec.job_id
      → holds_slot j.phase ≡ true
      → holds_slot j'.phase ≡ true
      → IsSound j'
      → Inv (put id j' r)
  inside j' n h h' sound = put-Inv id j j' r v e n (ground arith) (ground arith) sound

  pub launched-Inv : (pid : ℤ) → j.phase ≡ launching → Inv (launched env id pid j r)
  unfolding launched
  launched-Inv pid p =
      if_cases Inv r.closed _ _ (λ _. inside _ refl (rw p) refl (ground (arith, s)))
        (λ _. flush-Inv env _ (inside _ refl (rw p) refl (ground (arith, s))))

  pub launch_failed-Inv :
      (msg : String) → holds_slot j.phase ≡ true → Inv (launch_failed id msg j r)
  unfolding launch_failed is_terminal
  launch_failed-Inv msg p = inside _ refl p refl (ground (arith, s))

  pub begin_attempt-Inv : (n : ℕ) → j.phase ≡ ready n → Inv (begin_attempt env id n j r)
  unfolding begin_attempt
  begin_attempt-Inv n p = flush-Inv env _ (inside _ refl (rw p) refl (ground (arith, s)))

  pub after_wait-Inv :
      (n : ℕ) (res : Option String) → j.phase ≡ waiting n → Inv (after_wait id n res j r)
  unfolding after_wait is_terminal
  after_wait-Inv n none p = inside _ refl (rw p) refl (ground (arith, s))
  after_wait-Inv n (some msg) p =
      if_cases Inv (is_aborted j.rec.status) _ _
        (λ _. inside _ refl (rw p) refl (ground (arith, s)))
        (λ _. inside _ refl (rw p) refl (ground (arith, s)))

  pub decide-Inv :
      (has_run_file : Bool) (n : ℕ) (msg : String)
      → j.phase ≡ undecided n msg
      → Inv (decide has_run_file id n msg j r)
  unfolding decide is_terminal
  decide-Inv has_run_file n msg p =
      if_cases Inv (ltb n max_authoring_retries && is_live j.ctx && not has_run_file) _ _
        (λ more. inside _ refl (rw p) refl (ground (arith, s)))
        (λ _. inside _ refl (rw p) refl (ground (arith, s)))

  pub reset_attempt-Inv : (n : ℕ) → j.phase ≡ retrying n → Inv (reset_attempt env id n j r)
  unfolding reset_attempt
  reset_attempt-Inv n p =
      if_cases Inv (is_over j.correlated) _ _
        (λ _. flush-Inv env _ (inside _ refl (rw p) refl (ground (arith, s)))) (λ _. v)

  pub relaunched-Inv :
      (n : ℕ) (pid : ℤ) → j.phase ≡ relaunching n → Inv (relaunched env id n pid j r)
  unfolding relaunched
  relaunched-Inv n pid p = flush-Inv env _ (inside _ refl (rw p) refl (ground (arith, s)))

  -- The correlate goroutine changes neither the status nor the phase.
  beside :
      (j' : Job)
      → j'.rec.job_id ≡ j.rec.job_id
      → j'.phase ≡ j.phase
      → IsSound j'
      → Inv (put id j' r)
  beside j' n p sound = put-Inv id j j' r v e n (rw p) (rw p) sound

  pub session_event-Inv :
      (found : Option String) (sid : String) → Inv (session_event env found id sid j r)
  unfolding session_event
  session_event-Inv found sid =
      if_cases Inv (same sid "") _ _ (λ _. beside _ refl refl (ground (arith, s)))
        (λ _. flush-Inv env _ (beside _ refl refl (ground (arith, s))))

  pub poll_run-Inv : (found : Option String) → Inv (poll_run env found id j r)
  unfolding poll_run
  poll_run-Inv found =
      if_cases Inv (resolve_run found j.rec.run_id).1 _ _
        (λ _. flush-Inv env _ (beside _ refl refl (ground (arith, s)))) (λ _. v)

  pub stop_correlate-Inv : Inv (stop_correlate id j r)
  unfolding stop_correlate
  stop_correlate-Inv = beside _ refl refl (ground (arith, s))

  pub kill-Inv : Inv (kill id j r)
  unfolding kill
  kill-Inv =
      if_cases Inv (is_live j.ctx && (is_aborted j.rec.status || r.closed)) _ _
        (λ _. beside _ refl refl (ground (arith, s))) (λ _. v)
