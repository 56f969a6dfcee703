-- ===== src/Jobs/Registry/Call/Section.antt =====
-- What the first section of Submit yields, from a registry that the server can reach.
use pi_mcp.Prelude.{
  ◌≡◌, ◌⊎◌, refl, sym, inl, inr, Bool, String, Option, none, some, arith, ltb, if◌then◌else◌,
  Bool-cases, if_cases, subst,
}
use pi_mcp.Prelude.Dict.{lookup, insert, lookup-insert_self}
use pi_mcp.Model.{JobRecord, queued, running}
use pi_mcp.Jobs.Job.{Spec, Job, job_id_of, new_job, starting, mark}
use pi_mcp.Jobs.Registry.{Registry, Env, flush, try_admit, submit}
use pi_mcp.Jobs.Registry.Cancel.{lookup_job}
use pi_mcp.Jobs.Registry.Steps.Safety.{Reachable}
use pi_mcp.Jobs.Registry.Steps.Capacity.{submit_failure_is_clean}

-- What the registry answers of a job that it accepts.
pub record Admits (id : String) (spec : Spec) (r : Registry) (rec : JobRecord) : Type 0 where
  pub same_id : rec.job_id ≡ id
  pub same_path : rec.worktree_path ≡ spec.worktree
  pub same_branch : rec.branch ≡ spec.branch
  pub same_cwd : rec.cwd ≡ spec.cwd
  pub same_mode : rec.mode ≡ spec.mode
  pub active : (rec.status ≡ queued) ⊎ (rec.status ≡ running)
  pub found : lookup_job id r ≡ some rec

abbrev pub Admitted : String → Spec → Registry → Registry × Option JobRecord → Type 0
Admitted id spec r (r', none) = r' ≡ r
Admitted id spec r (r', some rec) = Admits id spec r' rec

flush-jobs : (env : Env) (r : Registry) → (flush env r).jobs ≡ r.jobs
unfolding flush
flush-jobs env r = ground arith

put-Admits :
    (env : Env) (minted : String) (spec : Spec) (j : Job) (r r' : Registry)
    → j.rec.job_id ≡ job_id_of minted spec
    → j.rec.worktree_path ≡ spec.worktree
    → j.rec.branch ≡ spec.branch
    → j.rec.cwd ≡ spec.cwd
    → j.rec.mode ≡ spec.mode
    → (j.rec.status ≡ queued) ⊎ (j.rec.status ≡ running)
    → r'.jobs ≡ insert (job_id_of minted spec) j r.jobs
    → Admits (job_id_of minted spec) spec (flush env r') j.rec
unfolding lookup_job
put-Admits env minted spec j r r' a b c d m s e = record {
  same_id = a;
  same_path = b;
  same_branch = c;
  same_cwd = d;
  same_mode = m;
  active = s;
  found = rw (flush-jobs env r', e, lookup-insert_self (job_id_of minted spec) j r.jobs) refl;
}

-- What a submit whose transaction commits does with an admission.
abbrev committed : Env → String → Spec → Registry × Bool → Registry × Option JobRecord
committed env minted spec (r', admitted) =
    let j = new_job env.now minted spec in
    (
      flush env r',
      some (if admitted then (starting env.now j).rec else (mark queued env.now j).rec),
    )

pub submit-Admitted :
    (env : Env) (minted : String) (spec : Spec) (r : Registry)
    → Reachable r
    → lookup (job_id_of minted spec) r.jobs ≡ none
    → Admitted (job_id_of minted spec) spec r (submit env minted spec r)
unfolding submit try_admit new_job starting mark
submit-Admitted env minted spec r w new = elim (Bool-cases env.db) [
  | inr fails ↦
      subst (Admitted (job_id_of minted spec) spec r)
        (sym (submit_failure_is_clean env minted spec r w new fails)) refl
  | inl commits ↦
      let j = new_job env.now minted spec in
      let done : submit env minted spec r
          ≡ committed env minted spec (try_admit env (job_id_of minted spec) j r) =
        rw commits refl in
      subst (Admitted (job_id_of minted spec) spec r) (sym done) (
        if_cases (λ p. Admitted (job_id_of minted spec) spec r (committed env minted spec p))
          (ltb r.slots r.cap) _ _
          (λ _.
            put-Admits env minted spec (starting env.now j) r _ refl refl refl refl refl (inr refl)
              refl)
          (λ _.
            put-Admits env minted spec (mark queued env.now j) r _ refl refl refl refl refl
              (inl refl) refl))
]
