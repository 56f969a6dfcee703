-- ===== src/Jobs/Registry/Steps/Endings.antt =====
-- The sections that end a job keep the invariant: finish, its tail, and cancel.
use pi_mcp.Prelude.{
  ℕ, ◌-◌, ◌≡◌, inl, inr, refl, ap, ◌∙◌, true, false, ◌&&◌, String, some, arith, Option-cases,
  if_cases,
}
use pi_mcp.Prelude.Dict.{lookup, lookup-insert, count-insert, insert_twice, insert-NodupKeys}
use pi_mcp.Model.{Status, Bytes, queued, running, is_write, is_aborted}
use pi_mcp.LiveStatus.{is_terminal}
use pi_mcp.Jobs.Job.{Job, finishing, tail, over, idle}
use pi_mcp.Jobs.Registry.{Registry, Env, put, flush, remove_from_queue}
use pi_mcp.Jobs.Registry.Finish.{
  settle, promote, release_slot, finish, close_done, prune, finish_tail, save_run_snapshot,
  is_slot_status,
}
use pi_mcp.Jobs.Registry.Cancel.{abort, cancel_by, cancel_queued, cancel_running, cancel}
use pi_mcp.Jobs.Registry.Steps.Invariant.{IsSound, Inv, holder, holds_slot}
use pi_mcp.Jobs.Registry.Steps.Locals.{SameCore, core-Inv, flush-Inv, flush-SameCore, put-Inv}
use pi_mcp.Jobs.Registry.Steps.Queue.{
  is_nil-remove_from_queue, mem-remove_from_queue, Distinct-remove_from_queue,
}
use pi_mcp.Jobs.Registry.Steps.Slots.{Freed, promote_from-Inv, prune-Inv}

-- After its section of finish a job is terminal, whatever it was.
pub settle_terminal :
    (now : ℕ) (status : Status) (code msg : String) (j : Job)
    → is_terminal status ≡ true
    → is_terminal (settle now status code msg j).rec.status ≡ true
unfolding settle
settle_terminal now status code msg j t = ground arith

release_slot-Inv :
    (env : Env) (r : Registry) → Freed (record r { slots = r.slots - 1 }) → Inv (release_slot env r)
unfolding release_slot promote
release_slot-Inv env r f =
    if_cases Inv r.closed _ _
      (λ closed. record {
        sound = f.sound;
        named = f.named;
        nodup = f.nodup;
        counted = f.counted;
        capped = omega (arith, f.room);
        lined_up = f.lined_up;
        unique = f.unique;
        full = λ c. cc;
        calm = f.calm;
      })
      (λ _. promote_from-Inv env r.queue _ f refl)

-- The channel of a job that is not over is open.
close_done-Inv :
    (id : String) (j : Job) (r : Registry)
    → j.done ≡ false
    → Inv (put id (record j { done = true; phase = over }) r)
    → Inv (close_done id j r)
unfolding close_done
close_done-Inv id j r open_ w = if_cases Inv j.done _ _ (λ closed. absurd (ground arith)) (λ _. w)

pub put-SameCore :
    (id : String) (j : Job) (r r' : Registry) → SameCore r r' → SameCore (put id j r) (put id j r')
put-SameCore id j r r' c = ground arith

module _ (env : Env) (id : String) (j : Job) (r : Registry) (v : Inv r)
    (e : lookup id r.jobs ≡ some j) where
  freed :
      (j' : Job)
      → j'.rec.job_id ≡ j.rec.job_id
      → holds_slot j.phase ≡ true
      → j'.phase ≡ tail
      → IsSound j'
      → Freed (record (put id j' r) { slots = r.slots - 1 })
  freed j' n h p s = record {
    sound = λ k i g. ground (arith, lookup-insert k id j' r.jobs, v.sound k i);
    named = λ k i g. ground (arith, lookup-insert k id j' r.jobs, v.named k i, v.named id j e);
    nodup = insert-NodupKeys id j' r.jobs v.nodup;
    counted = ground (arith, v.counted, count-insert holder id j' j r.jobs);
    room = ground (arith, v.counted, v.capped, count-insert holder id j' j r.jobs);
    lined_up = λ k g. ground (arith, lookup-insert k id j' r.jobs, v.lined_up k);
    unique = v.unique;
    full = ground (arith, v.counted, v.full, count-insert holder id j' j r.jobs);
    calm = v.calm;
  }

  -- The job after the compare-and-set of finish, its slot given back.
  pub settled-Freed :
      (status : Status) (code msg : String)
      → j.phase ≡ finishing status code msg
      → Freed (record (put id (record (settle env.now status code msg j) { phase = tail }) r) {
        slots = r.slots - 1;
      })
  settled-Freed status code msg p =
      let s = v.sound id j e in
      let j' = record (settle env.now status code msg j) { phase = tail } in
      let terminal : is_terminal j'.rec.status ≡ true =
        settle_terminal env.now status code msg j (ground (arith, s.conclusive)) in
      let sound : IsSound j' = unfold settle in ground (arith, s, terminal) in
      freed j' (unfold settle in ground arith) (rw p) refl sound

  pub finish-Inv :
      (status : Status) (code msg : String)
      → j.phase ≡ finishing status code msg
      → Inv (finish env id status code msg j r)
  unfolding finish
  finish-Inv status code msg p = flush-Inv env _ (
      if_cases Inv (is_slot_status j.rec.status) _ _
        (λ _. release_slot-Inv env _ (settled-Freed status code msg p))
        (λ none_held. absurd (ground (arith, v.sound id j e))))

  pub finish_tail-Inv : (snap : Bytes) → j.phase ≡ tail → Inv (finish_tail env id snap j r)
  unfolding finish_tail
  finish_tail-Inv snap p =
      let s = v.sound id j e in
      let r' =
        prune (is_write j.rec.mode && is_aborted j.rec.status) j.rec.worktree_path j.rec.branch
          (save_run_snapshot env id snap j r) in
      let c : SameCore r r' = unfold prune save_run_snapshot in ground arith in
      close_done-Inv id j r' (ground (arith, s)) (
        put-Inv id j _ r' (core-Inv r r' v c) (ap (lookup id) c.jobs ∙ e) refl (rw p) (rw p)
          (ground (arith, s)))

  -- A queued job is idle.
  queued_idle : j.rec.status ≡ queued → j.phase ≡ idle
  queued_idle q = unfold is_terminal in ground (arith, v.sound id j e)

  -- A job that leaves the queue for good.
  left-Inv :
      (j' : Job)
      → j'.rec.job_id ≡ j.rec.job_id
      → j.phase ≡ idle
      → j'.phase ≡ over
      → IsSound j'
      → Inv (put id j' (record r { queue = remove_from_queue id r.queue }))
  left-Inv j' n p p' s = record {
    sound = λ k i g. ground (arith, lookup-insert k id j' r.jobs, v.sound k i);
    named = λ k i g. ground (arith, lookup-insert k id j' r.jobs, v.named k i, v.named id j e);
    nodup = insert-NodupKeys id j' r.jobs v.nodup;
    counted = ground (arith, v.counted, count-insert holder id j' j r.jobs);
    capped = v.capped;
    lined_up = λ k g.
        ground
          (arith, lookup-insert k id j' r.jobs, v.lined_up k, mem-remove_from_queue k id r.queue);
    unique = Distinct-remove_from_queue id r.queue v.unique;
    full = λ c q. v.full c (is_nil-remove_from_queue id r.queue q);
    calm = v.calm;
  }

  cancel_queued-Inv : j.rec.status ≡ queued → Inv (cancel_queued env id j r)
  unfolding cancel_queued is_terminal
  cancel_queued-Inv q =
      let s = v.sound id j e in
      let j' = abort env.now j in
      let j'' = record j' { done = true; phase = over } in
      let r' = put id j' (record r { queue = remove_from_queue id r.queue }) in
      prune-Inv _ _ _ _ (
        close_done-Inv id j' (flush env r') (unfold abort in ground (arith, s, queued_idle q)) (
          core-Inv (put id j'' r') _
            (rw (insert_twice id j'' j' r.jobs) (
              left-Inv j'' (unfold abort in refl) (queued_idle q) refl
                (unfold abort in ground (arith, s))))
            (put-SameCore id j'' _ _ (flush-SameCore env r'))))

  cancel_running-Inv : j.rec.status ≡ running → Inv (cancel_running env id j r)
  unfolding cancel_running abort is_terminal
  cancel_running-Inv q = prune-Inv _ _ _ _ (
      flush-Inv env _
        (put-Inv id j (abort env.now j) r v e refl refl refl (ground (arith, v.sound id j e))))

  cancel_by-Inv : (status : Status) → j.rec.status ≡ status → Inv (cancel_by status env id j r)
  unfolding cancel_by
  cancel_by-Inv queued q = cancel_queued-Inv q
  cancel_by-Inv running q = cancel_running-Inv q
  cancel_by-Inv _ q = v

pub cancel-Inv : (env : Env) (id : String) (r : Registry) → Inv r → Inv (cancel env id r).0
unfolding cancel
cancel-Inv env id r v = elim (Option-cases (lookup id r.jobs)) [
  | inl e ↦ rw (e, cancel) v
  | inr (j, e) ↦ rw (e, cancel) (cancel_by-Inv env id j r v e j.rec.status refl)
]
