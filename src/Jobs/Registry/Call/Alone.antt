-- ===== src/Jobs/Registry/Call/Alone.antt =====
-- What Submit answers when a slot is free and nothing else happens while the call lasts.
use pi_mcp.Prelude.{
  ◌<◌, ◌+◌, ◌&&◌, ◌≡◌, refl, ap, ◌∙◌, true, false, String, none, some, List, [], ◌∷◌, arith, ltb,
  if_cases, string_dec,
}
use pi_mcp.Prelude.Clock.{ℤ}
use pi_mcp.Prelude.Dict.{lookup, lookup-insert_self}
use pi_mcp.Config.{err_agent_execution_error}
use pi_mcp.Model.{Bytes, JobRecord, running, failed, is_write, is_aborted}
use pi_mcp.LiveStatus.{is_terminal}
use pi_mcp.Jobs.Job.{Phase, cancelled, Spec, Job, job_id_of, new_job, starting, mark}
use pi_mcp.Jobs.Registry.{Registry, Env, put, flush, try_admit, submit}
use pi_mcp.Jobs.Registry.Launch.{launched, launch_failed}
use pi_mcp.Jobs.Registry.Finish.{
  settle, finish, release_slot, promote, promote_from, finish_tail, save_run_snapshot, prune,
  close_done, if_set,
}
use pi_mcp.Jobs.Registry.Cancel.{lookup_job}
use pi_mcp.Jobs.Registry.Call.{
  Call, LaunchResult, has_pid, launch_error, meanwhile, start_job, start_if, after_section,
  call_submit,
}
use pi_mcp.Jobs.Registry.Steps.{Move, moves, step, move, by_phase}
use pi_mcp.Jobs.Registry.Steps.Invariant.{Inv, is_nil}
use pi_mcp.Jobs.Registry.Steps.Locals.{flush-SameCore}
use pi_mcp.Jobs.Registry.Steps.Safety.{Reachable, Reachable-Inv}

-- A call in whose time nothing else happens.
abbrev pub alone : Env → Env → LaunchResult → Bytes → Call
alone env later result snap = record {
  env = env;
  launching = record { before = []; result = result; env = later; between = []; snap = snap };
  after = [];
}

-- What the answer says of a launch.
abbrev pub Tells : LaunchResult → JobRecord → Type 0
Tells (has_pid pid) rec = (rec.status ≡ running) × (rec.pid ≡ pid)
Tells (launch_error msg) rec =
    (rec.status ≡ failed)
    × (rec.error_code ≡ err_agent_execution_error)
    × (rec.error_message ≡ if_set msg "")

step_at :
    (env : Env) (id : String) (m : Move) (j : Job) (r : Registry)
    → lookup id r.jobs ≡ some j
    → step env (moves id m) r ≡ move m env id j r
unfolding step
step_at env id m j r e = rw (step, e) refl

flush-found :
    (env : Env) (id : String) (r : Registry) → lookup id (flush env r).jobs ≡ lookup id r.jobs
flush-found env id r = ap (lookup id) (flush-SameCore env r).jobs

found_job :
    (id : String) (j : Job) (r : Registry)
    → lookup id r.jobs ≡ some j
    → lookup_job id r ≡ some j.rec
unfolding lookup_job
found_job id j r e = rw (lookup_job, e) refl

put-found :
    (env : Env) (id : String) (j : Job) (r : Registry)
    → lookup id (flush env (put id j r)).jobs ≡ some j
put-found env id j r = flush-found env id (put id j r) ∙ lookup-insert_self id j r.jobs

module _ (later : Env) (id : String) (j : Job) (r : Registry) (e : lookup id r.jobs ≡ some j)
    (p : j.phase ≡ Phase.launching) (here : r.closed ≡ false) where
  launched-found :
      (pid : ℤ)
      → lookup_job id (step later (moves id (Move.launches pid)) r)
        ≡ some (record (j.rec) { pid = pid })
  unfolding move by_phase launched
  launched-found pid =
      let k = record j {
        rec = record (j.rec) { pid = pid };
        updated_at = later.now;
        phase = Phase.ready 0;
      } in
      let moved : step later (moves id (Move.launches pid)) r ≡ flush later (put id k r) =
        step_at later id (Move.launches pid) j r e
        ∙ ap (λ q. by_phase q (Move.launches pid) later id j r) p
        ∙ rw (launched, here) refl in
      ap (lookup_job id) moved ∙ found_job id k _ (put-found later id k r)

module _ (env later : Env) (minted : String) (spec : Spec) (r : Registry) where
  abbrev first_job : Job
  first_job = starting env.now (new_job env.now minted spec)

  abbrev failing_job : String → Job
  failing_job msg = record first_job {
    ctx = cancelled;
    phase = Phase.finishing failed err_agent_execution_error msg;
  }

  abbrev failed_job : String → Job
  failed_job msg =
      record (settle later.now failed err_agent_execution_error msg (failing_job msg)) {
        phase = Phase.tail;
      }

  failed_job-rec : (msg : String) → Tells (launch_error msg) (failed_job msg).rec
  unfolding settle mark starting new_job is_terminal string_dec
  failed_job-rec msg = (refl, refl, refl)

  tail-found :
      (id : String) (msg : String) (snap : Bytes) (s : Registry)
      → lookup id s.jobs ≡ some (failed_job msg)
      → lookup_job id (step later (moves id (Move.ends snap)) s) ≡ some (failed_job msg).rec
  unfolding move by_phase finish_tail close_done settle mark starting new_job is_terminal
  tail-found id msg snap s e =
      let j = failed_job msg in
      let done_job = record j { done = true; phase = Phase.over } in
      let pruned =
        prune (is_write j.rec.mode && is_aborted j.rec.status) j.rec.worktree_path j.rec.branch
          (save_run_snapshot later id snap j s) in
      ap (lookup_job id) (step_at later id (Move.ends snap) j s e)
      ∙ found_job id done_job (put id done_job pruned) (lookup-insert_self id done_job pruned.jobs)

  module _ (id : String) (e : lookup id r.jobs ≡ some first_job) (q : r.queue ≡ []) where
    abbrev told : String → Registry
    told msg = put id (failing_job msg) r

    failed-step : (msg : String) → step later (moves id (Move.launch_fails msg)) r ≡ told msg
    unfolding move by_phase launch_failed starting new_job mark
    failed-step msg = step_at later id (Move.launch_fails msg) first_job r e

    release-jobs : (s : Registry) → s.queue ≡ [] → (release_slot later s).jobs ≡ s.jobs
    unfolding release_slot promote promote_from
    release-jobs s h =
        rw h (if_cases (λ (t : Registry). t.jobs ≡ s.jobs) s.closed _ _ (λ _. refl) (λ _. refl))

    finished-found :
        (msg : String)
        → lookup id (step later (moves id Move.finishes) (told msg)).jobs ≡ some (failed_job msg)
    unfolding move by_phase finish starting new_job mark
    finished-found msg =
        ap (λ (s : Registry). lookup id s.jobs)
          (step_at later id Move.finishes (failing_job msg) (told msg)
            (lookup-insert_self id (failing_job msg) r.jobs))
        ∙ flush-found later id (release_slot later (put id (failed_job msg) (told msg)))
        ∙ ap (lookup id) (release-jobs (put id (failed_job msg) (told msg)) q)
        ∙ lookup-insert_self id (failed_job msg) (told msg).jobs

  -- The registry after the first section, where a slot is free.
  abbrev entered : Registry
  entered = flush env (put (job_id_of minted spec) first_job (record r { slots = r.slots + 1 }))

  section_lem :
      ltb r.slots r.cap ≡ true
      → env.db ≡ true
      → submit env minted spec r ≡ (entered, some first_job.rec)
  unfolding submit try_admit
  section_lem room commits = rw (room, commits) refl

empty_queue : (r : Registry) → Inv r → r.closed ≡ false → ltb r.slots r.cap ≡ true → r.queue ≡ []
empty_queue r v open_ room = by_queue r.queue refl
  where
    by_queue : (q : List String) → r.queue ≡ q → q ≡ []
    by_queue [] e = refl
    by_queue (k ∷ ks) e =
        let waits : is_nil r.queue ≡ false = rw e refl in
        absurd (ground (arith, v.full open_ waits))

start_job-alone :
    (env later : Env) (minted : String) (spec : Spec) (r s : Registry) (result : LaunchResult)
    (snap : Bytes) (id : String)
    → lookup id s.jobs ≡ some (first_job env later minted spec r)
    → s.queue ≡ []
    → s.closed ≡ false
    → (rec : JobRecord) × (lookup_job id (start_job (alone env later result snap).launching id s)
        ≡ some rec)
      × Tells result rec
unfolding start_job meanwhile starting new_job mark
start_job-alone env later minted spec r s (has_pid pid) snap id e q open_ = (
  record ((first_job env later minted spec r).rec) { pid = pid },
  launched-found later id (first_job env later minted spec r) s e refl open_ pid,
  (refl, refl),
)
start_job-alone env later minted spec r s (launch_error msg) snap id e q open_ =
    let ended =
      ap
        (λ t.
          lookup_job id
            (step later (moves id (Move.ends snap)) (step later (moves id Move.finishes) t)))
        (failed-step env later minted spec s id e q msg) in
    (
      (failed_job env later minted spec r msg).rec,
      ended
          ∙ tail-found env later minted spec s id msg snap _
              (finished-found env later minted spec s id e q msg),
      failed_job-rec env later minted spec r msg,
    )

-- A Submit of a new id to a reachable registry that is open and has a free slot, whose transaction
-- commits, while nothing else happens: if the launcher starts a process, the record that is returned
-- is running and has the id of that process; if the launcher fails, the record is failed, with the
-- code for an agent's error and the launcher's message.
pub call_submit-Tells :
    (env later : Env) (result : LaunchResult) (snap : Bytes) (minted : String) (spec : Spec)
    (r : Registry)
    → Reachable r
    → lookup (job_id_of minted spec) r.jobs ≡ none
    → r.closed ≡ false
    → r.slots < r.cap
    → env.db ≡ true
    → (rec : JobRecord) × ((call_submit (alone env later result snap) minted spec r).1 ≡ some rec)
      × Tells result rec
unfolding call_submit after_section meanwhile start_if starting new_job mark
call_submit-Tells env later result snap minted spec r w new open_ below commits =
    let room : ltb r.slots r.cap ≡ true = ground arith in
    let id = job_id_of minted spec in
    let j = first_job env later minted spec r in
    let s = entered env later minted spec r in
    let c = flush-SameCore env (put id j (record r { slots = r.slots + 1 })) in
    let (rec, found, tells) =
      start_job-alone env later minted spec r s result snap id
        (put-found env id j (record r { slots = r.slots + 1 }))
        (c.queue ∙ empty_queue r (Reachable-Inv w) open_ room) (c.closed ∙ open_) in
    (
      rec,
      ap (λ p. (after_section (alone env later result snap) id p).1)
            (section_lem env later minted spec r room commits)
          ∙ found,
      tells,
    )
