-- ===== src/Jobs/Registry/Steps/Capacity.antt =====
-- What the invariant says of the slots, the queue, the attempts and the channels.
use pi_mcp.Prelude.{◌≤◌, ◌≡◌, Bool, true, false, String, none, some, [], ◌∷◌, arith}
use pi_mcp.Prelude.Dict.{Dict, lookup, count, NodupKeys, lookup-tail}
use pi_mcp.Config.{max_authoring_retries}
use pi_mcp.Model.{running}
use pi_mcp.LiveStatus.{is_terminal}
use pi_mcp.Jobs.Job.{Job, Spec, job_id_of}
use pi_mcp.Jobs.Registry.{Registry, Env, flush, submit}
use pi_mcp.Jobs.Registry.Finish.{prune}
use pi_mcp.Jobs.Registry.Cancel.{cancel, cancel_by, cancel_running}
use pi_mcp.Jobs.Registry.Steps.Invariant.{IsSound, holder, is_nil, attempt_of}
use pi_mcp.Jobs.Registry.Steps.Slots.{submit_fails_clean}
use pi_mcp.Jobs.Registry.Steps.Safety.{Reachable, Reachable-Inv}

abbrev pub is_running : Job → Bool
is_running j = elim (j.rec.status) [ running ↦ true | _ ↦ false ]

pub count-running-le :
    (d : Dict Job)
    → NodupKeys d
    → ((k : String) (j : Job) → lookup k d ≡ some j → IsSound j)
    → count is_running d ≤ count holder d
unfolding count lookup is_terminal
count-running-le [] u s = omega arith
count-running-le ((k, j) ∷ d) u s = ground (
  arith,
  s k j (ground arith),
  count-running-le d u.1 (λ i w h. s i w (lookup-tail k i j w d u.0 h)),
)

-- In every registry that a server can reach, whatever the order of calls and of its goroutines'
-- moves: at most `cap` jobs have the status running, the tokens in the slot channel are the jobs
-- that hold one, and no job's done channel has been closed twice.
pub cap_respected :
    (r : Registry)
    → Reachable r
    → (count is_running r.jobs ≤ r.cap) × (r.slots ≡ count holder r.jobs) × (r.panicked ≡ false)
cap_respected r w =
    let v = Reachable-Inv w in
    (omega (arith, v.counted, v.capped, count-running-le r.jobs v.nodup v.sound), v.counted, v.calm)

-- In every reachable registry that is open, a job waits in the queue only while jobs hold all the
-- slots.
pub queue_waits_for_slot :
    (r : Registry)
    → Reachable r
    → r.closed ≡ false
    → is_nil r.queue ≡ false
    → count holder r.jobs ≡ r.cap
queue_waits_for_slot r w open_ waits = let v = Reachable-Inv w in ground (arith, v.counted, v.full)

-- In every reachable registry the attempt of a job is at most the second retry.
pub attempts_bounded :
    (r : Registry) (id : String) (j : Job)
    → Reachable r
    → lookup id r.jobs ≡ some j
    → attempt_of j.phase ≤ max_authoring_retries
attempts_bounded r id j w e = ((Reachable-Inv w).sound id j e).bounded

-- In every reachable registry the cancel of a running job prunes nothing: a running job has its
-- launch context, so the branch of Cancel for a running job without one is never taken.
pub cancel_running_prunes_nothing :
    (r : Registry) (env : Env) (id : String) (j : Job)
    → Reachable r
    → lookup id r.jobs ≡ some j
    → j.rec.status ≡ running
    → (cancel env id r).0.pruned ≡ r.pruned
unfolding cancel cancel_by cancel_running prune flush is_terminal
cancel_running_prunes_nothing r env id j w e running_now =
    ground (arith, (Reachable-Inv w).sound id j e)

-- In every reachable registry a submit of a new id whose transaction fails reports an error and
-- leaves the registry exactly as it was: no job, no slot and no place in the queue is left behind.
pub submit_failure_is_clean :
    (env : Env) (minted : String) (spec : Spec) (r : Registry)
    → Reachable r
    → lookup (job_id_of minted spec) r.jobs ≡ none
    → env.db ≡ false
    → submit env minted spec r ≡ (r, none)
submit_failure_is_clean env minted spec r w new fails =
    submit_fails_clean env minted spec r (Reachable-Inv w) new fails
