-- ===== src/Jobs/Registry/Steps/Forward.antt =====
-- Over any history a job is never lost and its status only moves forward.
use pi_mcp.Prelude.{
  ◌≡◌, inl, inr, refl, Bool, true, String, none, some, arith, ltb, if_cases, Bool-cases,
  Option-cases,
}
use pi_mcp.Prelude.Dict.{lookup, lookup-insert}
use pi_mcp.LiveStatus.{is_terminal}
use pi_mcp.Jobs.Job.{Job, Spec, new_job, job_id_of}
use pi_mcp.Jobs.Registry.{Registry, Env, put, flush, submit, try_admit}
use pi_mcp.Jobs.Registry.Cancel.{cancel, close}
use pi_mcp.Jobs.Registry.Steps.{Event, submits, cancels, closes, moves, step}
use pi_mcp.Jobs.Registry.Steps.Invariant.{Inv}
use pi_mcp.Jobs.Registry.Steps.Slots.{submit_fails_clean}
use pi_mcp.Jobs.Registry.Steps.Safety.{IsFresh, Reachable, Reachable-Inv, step-Inv}
use pi_mcp.Jobs.Registry.Steps.Evolution.{
  Leads, same_job, Evolves, Evolves-refl, Evolves-trans, jobs-Evolves, flush-Evolves,
}
use pi_mcp.Jobs.Registry.Steps.Lifecycle.{move-Evolves, cancel_by-Evolves}

-- A new job leaves the others alone.
insert-Evolves :
    (id : String) (j : Job) (r : Registry) → lookup id r.jobs ≡ none → Evolves r (put id j r)
insert-Evolves id j r new = record {
  of_job = λ k i h. (i, ground (arith, lookup-insert k id j r.jobs), inl refl, same_job i);
}

try_admit-Evolves :
    (env : Env) (id : String) (j : Job) (r : Registry)
    → lookup id r.jobs ≡ none
    → Evolves r (try_admit env id j r).0
unfolding try_admit
try_admit-Evolves env id j r new =
    if_cases (λ (t : Registry × Bool). Evolves r t.0) (ltb r.slots r.cap) _ _
      (λ room. jobs-Evolves (insert-Evolves id _ r new) refl)
      (λ full. jobs-Evolves (insert-Evolves id _ r new) refl)

submit-Evolves :
    (env : Env) (minted : String) (spec : Spec) (r : Registry)
    → Inv r
    → lookup (job_id_of minted spec) r.jobs ≡ none
    → Evolves r (submit env minted spec r).0
unfolding submit
submit-Evolves env minted spec r v new = elim (Bool-cases env.db) [
  | inl commits ↦
      jobs-Evolves
        (try_admit-Evolves env (job_id_of minted spec) (new_job env.now minted spec) r new)
        (unfold flush in rw commits refl)
  | inr fails ↦ rw (submit_fails_clean env minted spec r v new fails) (Evolves-refl r)
]

cancel-Evolves : (env : Env) (id : String) (r : Registry) → Inv r → Evolves r (cancel env id r).0
unfolding cancel
cancel-Evolves env id r v = elim (Option-cases (lookup id r.jobs)) [
  | inl e ↦ rw (e, cancel) (Evolves-refl r)
  | inr (j, e) ↦ rw (e, cancel) (cancel_by-Evolves env id j r e v j.rec.status refl)
]

close-Evolves : (env : Env) (r : Registry) → Evolves r (close env r)
unfolding close
close-Evolves env r =
    if_cases (Evolves r) r.closed _ _ (λ _. Evolves-refl r)
      (λ _. flush-Evolves env (jobs-Evolves (Evolves-refl r) refl))

pub step-Evolves :
    (env : Env) (e : Event) (r : Registry) → IsFresh e r → Inv r → Evolves r (step env e r)
unfolding step
step-Evolves env (submits minted spec) r new v = submit-Evolves env minted spec r v new
step-Evolves env (cancels id) r f v = cancel-Evolves env id r v
step-Evolves env closes r f v = close-Evolves env r
step-Evolves env (moves id m) r f v = elim (Option-cases (lookup id r.jobs)) [
  | inl e ↦ rw (e, step) (Evolves-refl r)
  | inr (j, e) ↦ rw (e, step) (move-Evolves env id j r e v m)
]

-- The registries that come after a given one.
pub data Later (r : Registry) : Registry → Type 0 where
  now : Later r r
  next : {s : Registry} → Later r s → (env : Env) (e : Event) → IsFresh e s → Later r (step env e s)

Later-Inv : {r s : Registry} → Inv r → Later r s → Inv s
Later-Inv v now = v
Later-Inv v (next {s} w env e f) = step-Inv env e s f (Later-Inv v w)

pub Later-Evolves : {r s : Registry} → Inv r → Later r s → Evolves r s
Later-Evolves {r} v now = Evolves-refl r
Later-Evolves v (next {s} w env e f) =
    Evolves-trans (Later-Evolves v w) (step-Evolves env e s f (Later-Inv v w))

-- From every reachable registry, over all later calls and moves, a job that the registry knows is
-- never lost, and its status moves only from queued to running, or from a status that is not
-- terminal to a terminal one.
pub job_moves_forward :
    (r s : Registry) (k : String) (j : Job)
    → Reachable r
    → Later r s
    → lookup k r.jobs ≡ some j
    → (j' : Job) × (lookup k s.jobs ≡ some j') × Leads j.rec.status j'.rec.status
job_moves_forward r s k j w l e =
    let (j', e', leads, same) = (Later-Evolves (Reachable-Inv w) l).of_job k j e in (j', e', leads)

-- From every reachable registry, over all later calls and moves, a terminal status is final: neither
-- the process's end, nor a failure, nor a cancel changes it.
pub terminal_is_final :
    (r s : Registry) (k : String) (j : Job)
    → Reachable r
    → Later r s
    → lookup k r.jobs ≡ some j
    → is_terminal j.rec.status ≡ true
    → (j' : Job) × (lookup k s.jobs ≡ some j') × (j'.rec.status ≡ j.rec.status)
unfolding is_terminal
terminal_is_final r s k j w l e t =
    let (j', e', leads) = job_moves_forward r s k j w l e in (j', e', ground arith)
