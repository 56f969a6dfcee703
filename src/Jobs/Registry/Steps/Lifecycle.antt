-- ===== src/Jobs/Registry/Steps/Lifecycle.antt =====
-- The life of a job: no call and no move loses a job or takes its status back.
use pi_mcp.Prelude.{
  ℕ, ◌-◌, ◌≡◌, inl, inr, refl, sym, subst, true, false, ◌&&◌, ◌||◌, not, String, Option, none, some,
  List, [], ◌∷◌, arith, same, ltb, if_cases, Option-cases,
}
use pi_mcp.Prelude.Clock.{ℤ}
use pi_mcp.Prelude.Dict.{lookup, insert_twice}
use pi_mcp.Config.{max_authoring_retries}
use pi_mcp.Model.{Status, Bytes, queued, running, is_aborted, is_write}
use pi_mcp.LiveStatus.{is_terminal}
use pi_mcp.Jobs.Job.{
  Job, Phase, Correlate, launching, tail, ready, waiting, retrying, relaunching, undecided,
  finishing, awaiting, polling, starting,
}
use pi_mcp.Jobs.Registry.{Registry, Env, put, flush, remove_from_queue}
use pi_mcp.Jobs.Registry.Launch.{
  launched, launch_failed, begin_attempt, after_wait, decide, is_live, is_over, reset_attempt,
  relaunched,
}
use pi_mcp.Jobs.Registry.Correlation.{resolve_run, session_event, poll_run, stop_correlate}
use pi_mcp.Jobs.Registry.Finish.{
  settle, promote_from, promote, release_slot, finish, close_done, prune, finish_tail,
  save_run_snapshot, is_slot_status,
}
use pi_mcp.Jobs.Registry.Cancel.{abort, cancel_by, cancel_queued, cancel_running}
use pi_mcp.Jobs.Registry.Steps.{Move, by_phase, by_correlate, move, kill}
use pi_mcp.Jobs.Registry.Steps.Invariant.{Inv}
use pi_mcp.Jobs.Registry.Steps.Locals.{SameCore, flush-SameCore}
use pi_mcp.Jobs.Registry.Steps.Slots.{Freed, admit_next_lem}
use pi_mcp.Jobs.Registry.Steps.Endings.{settled-Freed, put-SameCore}
use pi_mcp.Jobs.Registry.Steps.Evolution.{
  Leads, SameJob, same_job, Evolves, Evolves-refl, Evolves-trans, jobs-Evolves, put-Evolves,
  flush-Evolves, prune-Evolves,
}

module _ (env : Env) (id : String) (j : Job) (r : Registry) (e : lookup id r.jobs ≡ some j) where
  -- The job is written with its old status.
  kept : (j' : Job) → j.rec.status ≡ j'.rec.status → SameJob j j' → Evolves r (put id j' r)
  kept j' p m = put-Evolves id j j' r e (inl p) m

  launched-Evolves : (pid : ℤ) → Evolves r (launched env id pid j r)
  unfolding launched
  launched-Evolves pid =
      if_cases (Evolves r) r.closed _ _ (λ _. kept _ refl (same_job j))
        (λ _. flush-Evolves env (kept _ refl (same_job j)))

  after_wait-Evolves : (n : ℕ) (res : Option String) → Evolves r (after_wait id n res j r)
  unfolding after_wait
  after_wait-Evolves n none = kept _ refl (same_job j)
  after_wait-Evolves n (some msg) =
      if_cases (Evolves r) (is_aborted j.rec.status) _ _ (λ _. kept _ refl (same_job j))
        (λ _. kept _ refl (same_job j))

  by_correlate-Evolves : (c : Correlate) (m : Move) → Evolves r (by_correlate c m env id j r)
  unfolding by_correlate session_event poll_run stop_correlate
  by_correlate-Evolves awaiting (Move.session sid found) =
      if_cases (Evolves r) (same sid "") _ _ (λ _. kept _ refl (same_job j))
        (λ _. flush-Evolves env (kept _ refl (same_job j)))
  by_correlate-Evolves awaiting Move.stops = kept _ refl (same_job j)
  by_correlate-Evolves (polling sid) (Move.polls found) =
      if_cases (Evolves r) (resolve_run found j.rec.run_id).1 _ _
        (λ _. flush-Evolves env (kept _ refl (same_job j))) (λ _. Evolves-refl r)
  by_correlate-Evolves (polling sid) Move.stops = kept _ refl (same_job j)
  by_correlate-Evolves _ _ = Evolves-refl r

  close_done-Evolves :
      (j' : Job) (r' : Registry)
      → Evolves r r'
      → Evolves r (put id (record j' { done = true; phase = Phase.over }) r')
      → Evolves r (close_done id j' r')
  unfolding close_done
  close_done-Evolves j' r' h g =
      if_cases (Evolves r) j'.done _ _ (λ _. jobs-Evolves h refl) (λ _. g)

  finish_tail-Evolves : (snap : Bytes) → Evolves r (finish_tail env id snap j r)
  unfolding finish_tail
  finish_tail-Evolves snap =
      let r' =
        prune (is_write j.rec.mode && is_aborted j.rec.status) j.rec.worktree_path j.rec.branch
          (save_run_snapshot env id snap j r) in
      let c : SameCore r r' = unfold prune save_run_snapshot in ground arith in
      close_done-Evolves j r' (jobs-Evolves (Evolves-refl r) c.jobs) (
        jobs-Evolves (kept (record j { done = true; phase = Phase.over }) refl (same_job j))
          (put-SameCore id _ r r' c).jobs)

  -- The head of the queue goes from queued to running.
  promote_from-Evolves :
      (q : List String) (s : Registry) → Freed s → s.queue ≡ q → Evolves s (promote_from env q s)
  unfolding promote_from starting
  promote_from-Evolves [] s f h = Evolves-refl s
  promote_from-Evolves (k ∷ rest) s f h = elim (Option-cases (lookup k s.jobs)) [
    | inl gone ↦ absurd (ground (arith, f.lined_up k))
    | inr (i, there) ↦ subst (Evolves s) (sym (admit_next_lem env k rest i s there f.room)) (
        jobs-Evolves
          (put-Evolves k i (starting env.now i) s there
            (inr (inl (ground (arith, f.lined_up k, f.sound k i there), refl))) (same_job i))
          refl)
  ]

  settled-Leads :
      (status : Status) (code msg : String)
      → is_terminal status ≡ true
      → Leads j.rec.status (settle env.now status code msg j).rec.status
  unfolding settle
  settled-Leads status code msg t = ground arith

  settled-SameJob :
      (status : Status) (code msg : String)
      → SameJob j (record (settle env.now status code msg j) { phase = tail })
  unfolding settle
  settled-SameJob status code msg =
      if_cases (λ (i : Job). SameJob j (record i { phase = tail })) (is_terminal j.rec.status) _ _
        (λ _. same_job j) (λ _. same_job j)

  release_slot-Evolves :
      (s : Registry)
      → Evolves r s
      → Freed (record s { slots = s.slots - 1 })
      → Evolves r (release_slot env s)
  unfolding release_slot promote
  release_slot-Evolves s h f =
      if_cases (Evolves r) s.closed _ _ (λ _. jobs-Evolves h refl)
        (λ _. Evolves-trans (jobs-Evolves h refl) (promote_from-Evolves s.queue _ f refl))

  module _ (v : Inv r) where
    finish-Evolves :
        (status : Status) (code msg : String)
        → j.phase ≡ finishing status code msg
        → Evolves r (finish env id status code msg j r)
    unfolding finish
    finish-Evolves status code msg p =
        let s = put id (record (settle env.now status code msg j) { phase = tail }) r in
        let h : Evolves r s =
          put-Evolves id j _ r e (settled-Leads status code msg (ground (arith, v.sound id j e)))
            (settled-SameJob status code msg) in
        flush-Evolves env (
          if_cases (Evolves r) (is_slot_status j.rec.status) _ _
            (λ _. release_slot-Evolves s h (settled-Freed env id j r v e status code msg p))
            (λ _. h))

    aborted_here :
        is_terminal j.rec.status ≡ false → Leads j.rec.status (abort env.now j).rec.status
    unfolding abort is_terminal
    aborted_here o = inr (inr (o, refl))

    pub cancel_by-Evolves :
        (status : Status) → j.rec.status ≡ status → Evolves r (cancel_by status env id j r)
    unfolding cancel_by cancel_queued cancel_running is_terminal abort
    cancel_by-Evolves queued q =
        let j' = abort env.now j in
        let s = put id j' (record r { queue = remove_from_queue id r.queue }) in
        let l : Leads j.rec.status j'.rec.status = aborted_here (rw q) in
        let over_job = record j' { done = true; phase = Phase.over } in
        prune-Evolves _ _ _ (
          close_done-Evolves j' (flush env s)
            (flush-Evolves env (jobs-Evolves (put-Evolves id j j' r e l (same_job j)) refl))
            (jobs-Evolves
              (jobs-Evolves {t = put id over_job s} (put-Evolves id j over_job r e l (same_job j))
                (insert_twice id over_job j' r.jobs))
              (put-SameCore id over_job s _ (flush-SameCore env s)).jobs))
    cancel_by-Evolves running q =
        prune-Evolves _ _ _
          (flush-Evolves env (put-Evolves id j _ r e (aborted_here (rw q)) (same_job j)))
    cancel_by-Evolves _ q = Evolves-refl r

    by_phase-Evolves : (p : Phase) (m : Move) → j.phase ≡ p → Evolves r (by_phase p m env id j r)
    unfolding by_phase launch_failed begin_attempt decide reset_attempt relaunched
    by_phase-Evolves launching (Move.launches pid) p = launched-Evolves pid
    by_phase-Evolves launching (Move.launch_fails msg) p = kept _ refl (same_job j)
    by_phase-Evolves (ready n) Move.begins p = flush-Evolves env (kept _ refl (same_job j))
    by_phase-Evolves (waiting n) (Move.waits res) p = after_wait-Evolves n res
    by_phase-Evolves (undecided n msg) (Move.decides has_run_file) p =
        if_cases (Evolves r) (ltb n max_authoring_retries && is_live j.ctx && not has_run_file) _ _
          (λ _. kept _ refl (same_job j)) (λ _. kept _ refl (same_job j))
    by_phase-Evolves (retrying n) Move.resets p =
        if_cases (Evolves r) (is_over j.correlated) _ _
          (λ _. flush-Evolves env (kept _ refl (same_job j))) (λ _. Evolves-refl r)
    by_phase-Evolves (relaunching n) (Move.launches pid) p =
        flush-Evolves env (kept _ refl (same_job j))
    by_phase-Evolves (relaunching n) (Move.launch_fails msg) p = kept _ refl (same_job j)
    by_phase-Evolves (finishing status code msg) Move.finishes p =
        if_cases (Evolves r) (is_over j.correlated) _ _ (λ _. finish-Evolves status code msg p)
          (λ _. Evolves-refl r)
    by_phase-Evolves tail (Move.ends snap) p = finish_tail-Evolves snap
    by_phase-Evolves _ _ p = Evolves-refl r

    pub move-Evolves : (m : Move) → Evolves r (move m env id j r)
    unfolding move kill
    move-Evolves Move.kills =
        if_cases (Evolves r) (is_live j.ctx && (is_aborted j.rec.status || r.closed)) _ _
          (λ _. kept _ refl (same_job j)) (λ _. Evolves-refl r)
    move-Evolves (Move.session sid found) =
        by_correlate-Evolves j.correlated (Move.session sid found)
    move-Evolves (Move.polls found) = by_correlate-Evolves j.correlated (Move.polls found)
    move-Evolves Move.stops = by_correlate-Evolves j.correlated Move.stops
    move-Evolves m = by_phase-Evolves j.phase m refl
