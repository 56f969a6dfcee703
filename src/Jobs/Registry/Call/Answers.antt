-- ===== src/Jobs/Registry/Call/Answers.antt =====
-- What Submit answers, from a registry that the server can reach.
use mathlib.Core.Option
use mathlib.Core.Option.{some-injective}
use pi_mcp.Prelude.{
  ◌≡◌, ◌⊎◌, refl, sym, ap, ◌∙◌, Bool, true, false, String, Option, none, some, List, [], ◌∷◌, arith,
  if◌then◌else◌, if_cases, subst,
}
use pi_mcp.Prelude.Dict.{lookup}
use pi_mcp.Model.{JobRecord, Status, queued, running}
use pi_mcp.LiveStatus.{is_terminal}
use pi_mcp.Jobs.Job.{Spec, Job, job_id_of}
use pi_mcp.Jobs.Registry.{Registry, Env, submit}
use pi_mcp.Jobs.Registry.Call.{
  Call, Launching, LaunchResult, has_pid, launch_error, meanwhile, start_job, start_if,
  was_admitted, after_section, call_submit,
}
use pi_mcp.Jobs.Registry.Cancel.{lookup_job}
use pi_mcp.Jobs.Registry.Steps.{Move, Event, submits, cancels, closes, moves, step}
use pi_mcp.Jobs.Registry.Steps.Evolution.{Leads, SameJob}
use pi_mcp.Jobs.Registry.Steps.Forward.{Later, now, next, Later-Evolves}
use pi_mcp.Jobs.Registry.Steps.Safety.{Reachable, Reachable-Inv, step-Inv}
use pi_mcp.Jobs.Registry.Steps.Invariant.{Inv}
use pi_mcp.Jobs.Registry.Steps.Capacity.{submit_failure_is_clean}
use pi_mcp.Jobs.Registry.Call.Section.{Admitted, submit-Admitted}

-- What happens later comes later.
meanwhile-Later :
    {r : Registry} (events : List (Env × Event)) (s : Registry)
    → Later r s
    → Later r (meanwhile events s)
unfolding meanwhile
meanwhile-Later [] s l = l
meanwhile-Later {r} ((env, submits minted spec) ∷ events) s l =
    meanwhile-Later events _ (by_id (lookup (job_id_of minted spec) s.jobs) refl)
  where
    by_id :
        (o : Option Job)
        → lookup (job_id_of minted spec) s.jobs ≡ o
        → Later r (
            if elim o as (λ _. Bool) [ none ↦ true | some j ↦ false ]
            then step env (submits minted spec) s
            else s)
    by_id none e = next l env (submits minted spec) e
    by_id (some j) e = l
meanwhile-Later ((env, cancels id) ∷ events) s l =
    meanwhile-Later events (step env (cancels id) s) (next l env (cancels id) tt)
meanwhile-Later ((env, closes) ∷ events) s l =
    meanwhile-Later events (step env closes s) (next l env closes tt)
meanwhile-Later ((env, moves id m) ∷ events) s l =
    meanwhile-Later events (step env (moves id m) s) (next l env (moves id m) tt)

start_job-Later :
    {r : Registry} (l : Launching) (id : String) (s : Registry)
    → Later r s
    → Later r (start_job l id s)
unfolding start_job
start_job-Later {r} l id s w = by_result l.result
  where
    by_result :
        (o : LaunchResult)
        → Later r (elim o [
          | has_pid pid ↦ step l.env (moves id (Move.launches pid)) (meanwhile l.before s)
          | launch_error msg ↦ step l.env (moves id (Move.ends l.snap)) (
              meanwhile l.between (
                step l.env
                  (moves id Move.finishes)
                  (step l.env (moves id (Move.launch_fails msg)) (meanwhile l.before s))))
        ])
    by_result (has_pid pid) =
        next (meanwhile-Later l.before s w) l.env (moves id (Move.launches pid)) tt
    by_result (launch_error msg) =
        let told =
          next (meanwhile-Later l.before s w) l.env (moves id (Move.launch_fails msg)) tt in
        let finished = next told l.env (moves id Move.finishes) tt in
        next (meanwhile-Later l.between _ finished) l.env (moves id (Move.ends l.snap)) tt

start_if-Later :
    {r : Registry} (admitted : Bool) (l : Launching) (id : String) (s : Registry)
    → Later r s
    → Later r (start_if admitted l id s)
unfolding start_if
start_if-Later {r} admitted l id s w =
    if_cases (Later r) admitted _ _ (λ _. start_job-Later l id s w) (λ _. w)

-- What Submit answers of a job that it accepts: the record that the registry has then.
pub record Accepts (id : String) (spec : Spec) (r : Registry) (rec : JobRecord) : Type 0 where
  pub same_id : rec.job_id ≡ id
  pub same_path : rec.worktree_path ≡ spec.worktree
  pub same_branch : rec.branch ≡ spec.branch
  pub same_cwd : rec.cwd ≡ spec.cwd
  pub same_mode : rec.mode ≡ spec.mode
  pub moved : (rec.status ≡ queued) ⊎ (rec.status ≡ running) ⊎ (is_terminal rec.status ≡ true)
  pub found : lookup_job id r ≡ some rec

abbrev pub Answers : String → Spec → Registry → Registry × Option JobRecord → Type 0
Answers id spec r (r', none) = r' ≡ r
Answers id spec r (r', some rec) = Accepts id spec r' rec

lookup_job-some :
    (id : String) (r : Registry) (rec : JobRecord)
    → lookup_job id r ≡ some rec
    → (j : Job) × (lookup id r.jobs ≡ some j) × (j.rec ≡ rec)
unfolding lookup_job
lookup_job-some id r rec h = by_job (lookup id r.jobs) refl h
  where
    by_job :
        (o : Option Job)
        → lookup id r.jobs ≡ o
        → Option.map (λ (j : Job). j.rec) o ≡ some rec
        → (j : Job) × (lookup id r.jobs ≡ some j) × (j.rec ≡ rec)
    by_job none e h = absurd (cc h)
    by_job (some j) e h = (j, e, some-injective j.rec rec h)

-- What the registry has of a job at a later time.
pub after_section-found :
    (c : Call) (id : String) (r : Registry) (rec : JobRecord)
    → Inv r
    → lookup_job id r ≡ some rec
    → (j j' : Job) × (j.rec ≡ rec)
      × ((after_section c id (r, some rec)).1 ≡ some j'.rec)
      × (lookup_job id (after_section c id (r, some rec)).0 ≡ some j'.rec)
      × Leads j.rec.status j'.rec.status
      × SameJob j j'
unfolding after_section
after_section-found c id r rec v found =
    let (j, e, q) = lookup_job-some id r rec found in
    let started = start_if (was_admitted rec.status) c.launching id r in
    let later =
      meanwhile-Later c.after started
        (start_if-Later (was_admitted rec.status) c.launching id r now) in
    let (j', e', l, m) = (Later-Evolves v later).of_job id j e in
    let here : lookup_job id (meanwhile c.after started) ≡ some j'.rec = rw (lookup_job, e') refl in
    (j, j', q, here, here, l, m)

moved_from :
    (a b : Status)
    → Leads a b
    → (a ≡ queued) ⊎ (a ≡ running)
    → (b ≡ queued) ⊎ (b ≡ running) ⊎ (is_terminal b ≡ true)
moved_from a b l h = ground arith

pub call_submit-Answers :
    (c : Call) (minted : String) (spec : Spec) (r : Registry)
    → Reachable r
    → lookup (job_id_of minted spec) r.jobs ≡ none
    → Answers (job_id_of minted spec) spec r (call_submit c minted spec r)
unfolding call_submit step
call_submit-Answers c minted spec r w new =
    by_section (submit c.env minted spec r)
      (step-Inv c.env (submits minted spec) r new (Reachable-Inv w))
      (submit-Admitted c.env minted spec r w new)
  where
    by_section :
        (p : Registry × Option JobRecord)
        → Inv p.0
        → Admitted (job_id_of minted spec) spec r p
        → Answers (job_id_of minted spec) spec r (after_section c (job_id_of minted spec) p)
    by_section (r', none) v kept = kept
    by_section (r', some rec) v x =
        let (j, j', q, answered, found, l, m) =
          after_section-found c (job_id_of minted spec) r' rec v x.found in
        let r'' = (after_section c (job_id_of minted spec) (r', some rec)).0 in
        let (a, b, d, t, u) = m in
        let before = x.active in
        subst (λ o. Answers (job_id_of minted spec) spec r (r'', o)) (sym answered)
          (record {
            same_id = sym a ∙ ap (λ (i : JobRecord). i.job_id) q ∙ x.same_id;
            same_path = sym t ∙ ap (λ (i : JobRecord). i.worktree_path) q ∙ x.same_path;
            same_branch = sym u ∙ ap (λ (i : JobRecord). i.branch) q ∙ x.same_branch;
            same_cwd = sym d ∙ ap (λ (i : JobRecord). i.cwd) q ∙ x.same_cwd;
            same_mode = sym b ∙ ap (λ (i : JobRecord). i.mode) q ∙ x.same_mode;
            moved = moved_from j.rec.status j'.rec.status l (
                subst (λ (i : JobRecord). (i.status ≡ queued) ⊎ (i.status ≡ running)) (sym q)
                  before);
            found = found;
          })

-- A call whose transaction fails is an error and leaves the registry as it was.
pub call_submit-fails :
    (c : Call) (minted : String) (spec : Spec) (r : Registry)
    → Reachable r
    → lookup (job_id_of minted spec) r.jobs ≡ none
    → c.env.db ≡ false
    → call_submit c minted spec r ≡ (r, none)
unfolding call_submit after_section
call_submit-fails c minted spec r w new fails =
    ap (after_section c (job_id_of minted spec))
      (submit_failure_is_clean c.env minted spec r w new fails)
