-- ===== src/JobsAdapter/Submit.antt =====
-- A submit of a write job through the adapter, on every branch.
use pi_mcp.Prelude.{◌≡◌, refl, sym, ap, ◌∙◌, true, false, String, Option, none, some, arith, subst}
use pi_mcp.Prelude.Dict.{lookup, insert, lookup-insert_self}
use pi_mcp.Model.{JobRecord, is_write}
use pi_mcp.Worktree.{Os, Handle, Answer, ok, failed, Error, new_manager, create}
use pi_mcp.Jobs.Job.{Spec, job_id_of}
use pi_mcp.Jobs.Registry.{Registry}
use pi_mcp.Jobs.Registry.Cancel.{lookup_job}
use pi_mcp.Jobs.Registry.Steps.Safety.{Reachable}
use pi_mcp.Jobs.Registry.Call.{Call, call_submit}
use pi_mcp.Jobs.Registry.Call.Answers.{Answers, call_submit-Answers, call_submit-fails}
use pi_mcp.JobsAdapter.{
  JobSpec, WriteHandle, Adapter, worktree_error, registry_error, Submitted, accepted, refused,
  spec_of, in_worktree, to_registry, submit_write, submit, remember,
}

pub job_id_in_worktree :
    {World : Type 0} (os : Os World) (base id : String) (h : Handle) (spec : Spec)
    → job_id_of id (in_worktree os base id h spec) ≡ id
unfolding job_id_of in_worktree
job_id_in_worktree os base id h spec = ground arith

module _ {World : Type 0} (os : Os World) (base : String) where
  -- The handle of a write job, remembered under its id.
  abbrev pub handle_of : JobSpec → Handle → WriteHandle
  handle_of input h = record { repo = input.cwd; handle = h }

  -- What a submit has done, by how it ended.
  abbrev pub AfterSubmit : String → JobSpec → Adapter World → Adapter World × Submitted → Type 0
  AfterSubmit id input a (a', refused (worktree_error e)) =
      (a'.reg ≡ a.reg) × (a'.handles ≡ a.handles)
  AfterSubmit id input a (a', refused registry_error) =
      (a'.reg ≡ a.reg) × ((h : Handle) × (a'.handles ≡ insert id (handle_of input h) a.handles))
  AfterSubmit id input a (a', accepted rec) =
      (rec.job_id ≡ id)
      × (lookup_job id a'.reg ≡ some rec)
      × ((h : Handle) × (lookup id a'.handles ≡ some (handle_of input h))
          × (rec.worktree_path ≡ h.path)
          × (rec.branch ≡ h.branch)
          × (rec.cwd ≡ h.path))

  module _ (c : Call) (id : String) (input : JobSpec) (a : Adapter World)
      (reachable : Reachable a.reg) (new : lookup id a.reg.jobs ≡ none) where
    abbrev spec_in : Handle → Spec
    spec_in h = in_worktree os base id h (spec_of os base input)

    abbrev remembered : Handle → World → Adapter World
    remembered h w = remember os base id (handle_of input h) (record a { world = w })

    to_registry-After :
        (h : Handle) (w : World)
        → AfterSubmit id input a (to_registry os base c id (spec_in h) (remembered h w))
    unfolding to_registry remember in_worktree
    to_registry-After h w = by_answer (call_submit c id (spec_in h) a.reg) (
        subst (λ i. Answers i (spec_in h) a.reg (call_submit c id (spec_in h) a.reg))
          (job_id_in_worktree os base id h (spec_of os base input))
          (call_submit-Answers c id (spec_in h) a.reg reachable (
            subst (λ i. lookup i a.reg.jobs ≡ none)
              (sym (job_id_in_worktree os base id h (spec_of os base input))) new)))
      where
        by_answer :
            (r : Registry × Option JobRecord)
            → Answers id (spec_in h) a.reg r
            → AfterSubmit id input a (
              record a { reg = r.0; handles = insert id (handle_of input h) a.handles; world = w },
              elim r.1 [ none ↦ refused registry_error | some r ↦ accepted r ],
            )
        by_answer (r', none) kept = (kept, (h, refl))
        by_answer (r', some rec) x = (
          x.same_id,
          x.found,
          (
            h,
            lookup-insert_self id (handle_of input h) a.handles,
            x.same_path,
            x.same_branch,
            x.same_cwd,
          ),
        )

    -- The two steps on the worktrees, by their results.
    abbrev past_create : World × Answer Handle → Adapter World × Submitted
    past_create (w, made) = elim made [
      | failed e ↦ (record a { world = w }, refused (worktree_error e))
      | ok h ↦ to_registry os base c id (spec_in h) (remembered h w)
    ]

    abbrev past_manager : World × Option Error → Adapter World × Submitted
    past_manager (w, refusal) = elim refusal [
      | some e ↦ (record a { world = w }, refused (worktree_error e))
      | none ↦ past_create (create os base input.cwd id w)
    ]

    past_create-After : (r : World × Answer Handle) → AfterSubmit id input a (past_create r)
    past_create-After (w, failed e) = (refl, refl)
    past_create-After (w, ok h) = to_registry-After h w

    past_manager-After : (r : World × Option Error) → AfterSubmit id input a (past_manager r)
    past_manager-After (w, some e) = (refl, refl)
    past_manager-After (w, none) = past_create-After (create os base input.cwd id w)

    -- A submit of a write job of a new id to a reachable registry: refused by the worktrees, it
    -- leaves the registry and the handles alone; refused by the registry, it leaves the registry
    -- alone but keeps a handle; accepted, the registry has a record of that id, whose worktree,
    -- branch and directory are those of the handle that is kept for the id.
    pub submit-AfterSubmit :
        is_write input.mode ≡ true → AfterSubmit id input a (submit os base c id input a)
    unfolding submit submit_write
    submit-AfterSubmit writes = rw writes (past_manager-After (new_manager os input.cwd a.world))

    to_registry-fails :
        (h : Handle) (w : World)
        → c.env.db ≡ false
        → to_registry os base c id (spec_in h) (remembered h w) ≡ (
          record a { handles = insert id (handle_of input h) a.handles; world = w },
          refused registry_error,
        )
    unfolding to_registry remember
    to_registry-fails h w fails =
        let clean =
          call_submit-fails c id (spec_in h) a.reg reachable
            (subst (λ i. lookup i a.reg.jobs ≡ none)
              (sym (job_id_in_worktree os base id h (spec_of os base input))) new)
            fails in
        ap
          (λ (r : Registry × Option JobRecord). (
            record a { reg = r.0; handles = insert id (handle_of input h) a.handles; world = w },
            elim r.1 as (λ _. Submitted) [
              | none ↦ refused registry_error
              | some rec ↦ accepted rec
            ],
          ))
          clean

    -- A submit of a write job of a new id, whose worktree can be created but whose transaction fails,
    -- is an error and leaves the registry as it was, and with it the worktree and its handle: no
    -- other record of them is kept.
    pub submit_leaves_worktree :
        (h : Handle) (w1 w2 : World)
        → is_write input.mode ≡ true
        → new_manager os input.cwd a.world ≡ (w1, none)
        → create os base input.cwd id w1 ≡ (w2, ok h)
        → c.env.db ≡ false
        → submit os base c id input a ≡ (
          record a { handles = insert id (handle_of input h) a.handles; world = w2 },
          refused registry_error,
        )
    unfolding submit submit_write
    submit_leaves_worktree h w1 w2 writes inside made fails =
        let s : submit os base c id input a ≡ past_manager (new_manager os input.cwd a.world) =
          rw writes refl in
        s ∙ ap past_manager inside ∙ ap past_create made ∙ to_registry-fails h w2 fails
