-- ===== src/McpServer/Handlers/Contract.antt =====
-- What the handlers promise, given what the service of the jobs promises.
use pi_mcp.Prelude.{
  true, ◌≡◌, ◌⊎◌, refl, sym, ap, ◌∙◌, inl, inr, String, Option, none, some, if_cases,
}
use pi_mcp.Prelude.Text.{codes}
use pi_mcp.Model.{JobMode, queued, running, JobRecord}
use pi_mcp.LiveStatus.{is_terminal}
use pi_mcp.McpServer.Validate
use pi_mcp.McpServer.Validate.{validate_mode, validate_cwd, is_blank}
use pi_mcp.McpServer.Handlers.{
  JobsService, WorkflowInput, WorkflowOutput, CancelOutput, Fault, refused_by_jobs, Reply, reply,
  fault, workflow_output, answer_workflow, handle_workflow, answer_cancel, handle_cancel,
}
use pi_mcp.JobsAdapter.{JobSpec}

abbrev spec_for : WorkflowInput → JobMode → String → JobSpec
spec_for input mode cwd = record {
  mode = mode;
  cwd = cwd;
  task = input.task;
  context = input.context;
}

module _ {S : Type 0} (jobs : JobsService S) where
  -- An accepted job is the one that the service then finds, in the mode that was asked for, queued,
  -- running or ended.
  abbrev pub Found : JobSpec → S × Option JobRecord → Type 0
  Found spec (s, none) = Unit {0}
  Found spec (s, some rec) =
      (jobs.lookup rec.job_id s ≡ some rec)
      × (rec.mode ≡ spec.mode)
      × ((rec.status ≡ queued) ⊎ (rec.status ≡ running) ⊎ (is_terminal rec.status ≡ true))

  -- The promises of a service, from the states that are valid for it: a cancel answers with what is
  -- found after it, and of an unknown job it changes nothing.
  pub record KeepsPromises (IsValid : S → Type 0) : Type 0 where
    pub submit_found : (spec : JobSpec) (s : S) → IsValid s → Found spec (jobs.submit spec s)
    pub cancel_found :
        (id : String) (s : S) (rec : JobRecord)
        → (jobs.cancel id s).1 ≡ some rec
        → jobs.lookup id (jobs.cancel id s).0 ≡ some rec
    pub cancel_unknown :
        (id : String) (s : S) → jobs.lookup id s ≡ none → jobs.cancel id s ≡ (s, none)

  -- What a call of pi_workflow has done, by its answer.
  abbrev pub Told : WorkflowInput → S → S × Reply WorkflowOutput → Type 0
  Told input s (s', fault f) = (s' ≡ s) ⊎ (f ≡ refused_by_jobs)
  Told input s (s', reply out) =
      (validate_mode input.mode ≡ some out.mode)
      × ((out.status ≡ queued) ⊎ (out.status ≡ running) ⊎ (is_terminal out.status ≡ true))
      × ((rec : JobRecord) × (jobs.lookup out.job_id s' ≡ some rec) × (out ≡ workflow_output rec))

  module _ {IsValid : S → Type 0} (promises : KeepsPromises IsValid) where
    answer-Told :
        (input : WorkflowInput) (spec : JobSpec) (s : S) (r : S × Option JobRecord)
        → validate_mode input.mode ≡ some spec.mode
        → Found spec r
        → Told input s (answer_workflow jobs r)
    unfolding answer_workflow workflow_output
    answer-Told input spec s (s', none) m f = inr refl
    answer-Told input spec s (s', some rec) m (found, same_mode, active) =
        (m ∙ ap some (sym same_mode), active, (rec, found, refl))

    pub handle_workflow-Told :
        (files : Validate.Files) (input : WorkflowInput) (s : S)
        → IsValid s
        → Told input s (handle_workflow jobs files input s)
    unfolding handle_workflow
    handle_workflow-Told files input s valid =
        if_cases (Told input s) (is_blank (codes input.task)) _ _ (λ _. inl refl)
          (λ _. by_mode (validate_mode input.mode) refl)
      where
        by_cwd :
            (mode : JobMode)
            → validate_mode input.mode ≡ some mode
            → (o : Option String)
            → Told input s (elim o [
              | none ↦ (s, fault Fault.bad_cwd)
              | some cwd ↦ answer_workflow jobs (jobs.submit (spec_for input mode cwd) s)
            ])
        by_cwd mode m none = inl refl
        by_cwd mode m (some cwd) =
            answer-Told input (spec_for input mode cwd) s (jobs.submit (spec_for input mode cwd) s)
              m (promises.submit_found (spec_for input mode cwd) s valid)

        by_mode :
            (o : Option JobMode)
            → validate_mode input.mode ≡ o
            → Told input s (elim o [
              | none ↦ (s, fault Fault.bad_mode)
              | some mode ↦ elim (validate_cwd files input.cwd) [
                | none ↦ (s, fault Fault.bad_cwd)
                | some cwd ↦ answer_workflow jobs (jobs.submit (spec_for input mode cwd) s)
              ]
            ])
        by_mode none m = inl refl
        by_mode (some mode) m = by_cwd mode m (validate_cwd files input.cwd)

    -- What a call of pi_cancel has done, by its answer.
    abbrev pub CancelTold : String → S → S × Reply CancelOutput → Type 0
    CancelTold id s (s', fault f) = (s' ≡ s) ⊎ (f ≡ refused_by_jobs)
    CancelTold id s (s', reply out) =
        (rec : JobRecord) × (jobs.lookup id s' ≡ some rec)
        × (out.job_id ≡ rec.job_id)
        × (out.status ≡ rec.status)

    pub handle_cancel-CancelTold : (id : String) (s : S) → CancelTold id s (handle_cancel jobs id s)
    unfolding handle_cancel answer_cancel
    handle_cancel-CancelTold id s =
        if_cases (CancelTold id s) (is_blank (codes id)) _ _ (λ _. inl refl)
          (λ _. by_answer (jobs.cancel id s).0 (jobs.cancel id s).1 (promises.cancel_found id s))
      where
        by_answer :
            (s' : S) (o : Option JobRecord)
            → ((rec : JobRecord) → o ≡ some rec → jobs.lookup id s' ≡ some rec)
            → CancelTold id s (answer_cancel jobs (s', o))
        by_answer s' none h = inr refl
        by_answer s' (some rec) h = (rec, h rec refl, refl, refl)
