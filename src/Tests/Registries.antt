-- ===== src/Tests/Registries.antt =====
-- The registry of one slot, at the theorems about the registry.
use pi_mcp.Prelude.{arith, ◌≤◌, ◌⊎◌, List, true, ◌≡◌, refl, false, none, some, [], ◌∷◌, string_dec}
use pi_mcp.Prelude.Clock.{pos}
use pi_mcp.Prelude.Dict.{lookup, insert, count}
use pi_mcp.Model.{queued, completed, write, read, JobRecord}
use pi_mcp.LiveStatus.{is_terminal}
use pi_mcp.Jobs.Store.{row_of}
use pi_mcp.Jobs.Job.{Job, Context, Correlate, Phase, job_id_of, new_job, starting, mark}
use pi_mcp.Jobs.Registry.{new_registry, submit, try_admit, flush, owner_of}
use pi_mcp.Jobs.Registry.Launch.{launched, begin_attempt, after_wait}
use pi_mcp.Jobs.Registry.Correlation.{stop_correlate}
use pi_mcp.Jobs.Registry.Finish.{finish, settle, release_slot, promote, promote_from, admit_next}
use pi_mcp.Jobs.Registry.Cancel.{cancel}
use pi_mcp.Jobs.Registry.Steps.{Move, cancels, moves, step, move, by_phase, by_correlate}
use pi_mcp.Jobs.Registry.Steps.Invariant.{holder, is_nil}
use pi_mcp.Jobs.Registry.Steps.Safety.{next}
use pi_mcp.Jobs.Registry.Steps.Capacity.{
  is_running, cap_respected, cancel_running_prunes_nothing, submit_failure_is_clean,
}
use pi_mcp.Jobs.Registry.Steps.Evolution.{Leads}
use pi_mcp.Jobs.Registry.Steps.Forward.{Later, now, next, job_moves_forward, terminal_is_final}
use pi_mcp.Jobs.Registry.Call.{call_submit, launch_error}
use pi_mcp.Jobs.Registry.Call.Alone.{alone, Tells, call_submit-Tells}
use pi_mcp.Jobs.Registry.Call.Stored.{submit_is_stored}
use pi_mcp.Jobs.Registry.Cancel.{lookup_job}
use pi_mcp.Jobs.Registry.Steps.Order.{slot_passes_to_head}
use pi_mcp.App.Serving.{Activity, acts, sweeps, serve, serve_keeps_slots}
use pi_mcp.Tests.Fixtures.{
  call_at, spec_of, env_at, failing_env, opened, two_jobs, finishing_job, finished_job,
  opened-Reachable, two_jobs-Reachable, finishing_job-Reachable,
}

-- The jobs as the registry holds them.
abbrev job_a : Job
job_a = starting 1 (new_job 1 "m1" (spec_of write "a"))

abbrev job_b : Job
job_b = mark queued 2 (new_job 2 "m2" (spec_of read "b"))

abbrev job_a_finishing : Job
job_a_finishing = record job_a {
  rec = record (job_a.rec) { pid = pos 42 };
  updated_at = 3;
  ctx = Context.cancelled;
  correlated = Correlate.exited;
  phase = Phase.finishing completed "" "";
}

first_runs : lookup "a" two_jobs.jobs ≡ some job_a
unfolding step submit try_admit flush starting mark job_id_of new_job string_dec lookup insert
    new_registry
first_runs = refl

second_waits : lookup "b" two_jobs.jobs ≡ some job_b
unfolding step submit try_admit flush starting mark job_id_of new_job string_dec lookup insert
    new_registry
second_waits = refl

first_finishes : lookup "a" finishing_job.jobs ≡ some job_a_finishing
unfolding step submit try_admit flush starting mark job_id_of new_job string_dec lookup insert
    new_registry move by_phase by_correlate launched begin_attempt after_wait stop_correlate
first_finishes = refl

still_open : (finishing_job.closed ≡ false) × (finishing_job.queue ≡ "b" ∷ [])
unfolding step submit try_admit flush starting mark job_id_of new_job string_dec lookup insert
    new_registry move by_phase by_correlate launched begin_attempt after_wait stop_correlate
still_open = (refl, refl)

cap_respected_example :
    (count is_running finishing_job.jobs ≤ finishing_job.cap)
    × (finishing_job.slots ≡ count holder finishing_job.jobs)
    × (finishing_job.panicked ≡ false)
cap_respected_example = cap_respected finishing_job finishing_job-Reachable

cancel_running_prunes_nothing_example :
    (cancel (env_at 7) "a" finishing_job).0.pruned ≡ finishing_job.pruned
unfolding starting
cancel_running_prunes_nothing_example =
    cancel_running_prunes_nothing finishing_job (env_at 7) "a" job_a_finishing
      finishing_job-Reachable first_finishes refl

no_job_c : lookup "c" two_jobs.jobs ≡ none
unfolding step submit try_admit flush starting mark job_id_of new_job string_dec lookup insert
    new_registry
no_job_c = refl

submit_failure_is_clean_example :
    submit failing_env "m3" (spec_of write "c") two_jobs ≡ (two_jobs, none)
unfolding job_id_of string_dec
submit_failure_is_clean_example =
    submit_failure_is_clean failing_env "m3" (spec_of write "c") two_jobs two_jobs-Reachable
      no_job_c refl

-- The first job ends, and a cancel comes too late.
finished-Later : Later finishing_job finished_job
finished-Later = next now (env_at 7) (moves "a" Move.finishes) tt

job_moves_forward_example :
    (j : Job) × (lookup "a" finished_job.jobs ≡ some j)
    × Leads (job_a_finishing.rec.status) j.rec.status
job_moves_forward_example =
    job_moves_forward finishing_job finished_job "a" job_a_finishing finishing_job-Reachable
      finished-Later first_finishes

abbrev job_a_finished : Job
job_a_finished = record (settle 7 completed "" "" job_a_finishing) { phase = Phase.tail }

first_finished : lookup "a" finished_job.jobs ≡ some job_a_finished
unfolding step submit try_admit flush starting mark job_id_of new_job string_dec lookup insert
    new_registry move by_phase by_correlate launched begin_attempt after_wait stop_correlate finish
    settle release_slot promote promote_from admit_next is_terminal
first_finished = refl

terminal_is_final_example :
    (j : Job) × (lookup "a" (step (env_at 8) (cancels "a") finished_job).jobs ≡ some j)
    × (j.rec.status ≡ completed)
unfolding settle mark is_terminal starting
terminal_is_final_example =
    terminal_is_final finished_job (step (env_at 8) (cancels "a") finished_job) "a" job_a_finished
      (next finishing_job-Reachable (env_at 7) (moves "a" Move.finishes) tt)
      (next now (env_at 8) (cancels "a") tt) first_finished refl

slot_passes_to_head_example :
    let r = finish (env_at 7) "a" completed "" "" job_a_finishing finishing_job in
    (lookup "b" r.jobs ≡ some (starting 7 job_b)) × (r.queue ≡ []) × (r.slots ≡ finishing_job.slots)
unfolding step submit try_admit flush starting mark job_id_of new_job string_dec lookup insert
    new_registry move by_phase by_correlate launched begin_attempt after_wait stop_correlate
slot_passes_to_head_example =
    slot_passes_to_head (env_at 7) finishing_job "a" "b" [] job_a_finishing job_b completed "" ""
      finishing_job-Reachable first_finishes refl still_open.0 still_open.1 refl

submit_is_stored_example :
    (stored rec : JobRecord) × (lookup "a"
        (submit (env_at 1) "m1" (spec_of write "a") opened).0.store
      ≡ some (row_of (owner_of (env_at 1) opened) stored))
    × ((stored.mode ≡ write) × (stored.cwd ≡ "/src"))
    × ((call_submit (call_at (env_at 1)) "m1" (spec_of write "a") opened).1 ≡ some rec)
    × (lookup_job "a" (call_submit (call_at (env_at 1)) "m1" (spec_of write "a") opened).0
        ≡ some rec)
    × ((rec.job_id ≡ stored.job_id) × (rec.mode ≡ stored.mode) × (rec.cwd ≡ stored.cwd))
    × Leads stored.status rec.status
unfolding job_id_of string_dec new_registry lookup
submit_is_stored_example =
    submit_is_stored (call_at (env_at 1)) "m1" (spec_of write "a") opened opened-Reachable refl refl
      refl

-- A launcher that fails.
call_submit-Tells_example :
    (rec : JobRecord) × ((call_submit
        (alone (env_at 1) (env_at 2) (launch_error "no pi") [])
        "m1"
        (spec_of write "a")
        opened).1
      ≡ some rec)
    × Tells (launch_error "no pi") rec
unfolding job_id_of string_dec new_registry lookup
call_submit-Tells_example =
    call_submit-Tells (env_at 1) (env_at 2) (launch_error "no pi") [] "m1" (spec_of write "a")
      opened opened-Reachable refl refl (omega arith) refl

-- A sweep while the server is alive, and then the end of the first job, which starts the second one.
abbrev activities : List Activity
activities =
    sweeps (record { env = env_at 7; answers = λ i. true; signal = λ p. true })
    ∷ acts (env_at 8) (moves "a" Move.finishes)
    ∷ []

serve_keeps_slots_example :
    let r' = serve activities finishing_job in
    (count is_running r'.jobs ≤ r'.cap)
    × (r'.slots ≡ count holder r'.jobs)
    × (r'.panicked ≡ false)
    × ((r'.closed ≡ true) ⊎ (is_nil r'.queue ≡ true) ⊎ (count holder r'.jobs ≡ r'.cap))
serve_keeps_slots_example =
    serve_keeps_slots activities finishing_job finishing_job-Reachable (tt, tt)
