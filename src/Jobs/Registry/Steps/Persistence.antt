-- ===== src/Jobs/Registry/Steps/Persistence.antt =====
-- What a committed submit leaves in the registry table.
use pi_mcp.Prelude.{
  ◌≡◌, refl, ap, ◌∙◌, true, false, String, Option, none, some, [], ◌∷◌, arith, ltb, mem,
  if◌then◌else◌,
}
use mathlib.Core.Option
use pi_mcp.Prelude.Dict.{Dict, lookup, insert, lookup-insert_self, NodupKeys, insert-NodupKeys}
use pi_mcp.Model.{JobRecord, queued}
use pi_mcp.Jobs.Store.{row_of}
use pi_mcp.Jobs.Store.Ownership.{ids, find_record, Distinct, lookup-upsert_jobs}
use pi_mcp.Jobs.Job.{Job, Spec, job_id_of, new_job, starting, mark}
use pi_mcp.Jobs.Registry.{Registry, Env, records, owner_of, flush, submit, try_admit}
use pi_mcp.Jobs.Registry.Steps.Invariant.{Inv}
use pi_mcp.Jobs.Registry.Steps.Safety.{Reachable, Reachable-Inv}

-- Each job stands under its id.
abbrev pub AllNamed : Dict Job → Type 0
AllNamed [] = Unit {0}
AllNamed ((k, j) ∷ d) = (j.rec.job_id ≡ k) × AllNamed d

find_record-records :
    (k : String) (d : Dict Job)
    → AllNamed d
    → find_record k (records d) ≡ Option.map (λ (j : Job). j.rec) (lookup k d)
unfolding records lookup
find_record-records k [] n = refl
find_record-records k ((i, j) ∷ d) (p, n) = ground (arith, find_record-records k d n)

records-mem :
    (k : String) (d : Dict Job) → AllNamed d → lookup k d ≡ none → mem k (ids (records d)) ≡ false
unfolding records lookup
records-mem k [] n h = refl
records-mem k ((i, j) ∷ d) (p, n) h = ground (arith, records-mem k d n)

records-Distinct : (d : Dict Job) → AllNamed d → NodupKeys d → Distinct (ids (records d))
unfolding records
records-Distinct [] n u = tt
records-Distinct ((i, j) ∷ d) (p, n) (fresh, u) =
    (rw p (records-mem i d n fresh), records-Distinct d n u)

insert-AllNamed :
    (k : String) (j : Job) (d : Dict Job) → j.rec.job_id ≡ k → AllNamed d → AllNamed (insert k j d)
unfolding insert
insert-AllNamed k j [] p n = (p, tt)
insert-AllNamed k j ((i, j') ∷ d) p (q, n) = ground (arith, insert-AllNamed k j d p n)

named-AllNamed :
    (d : Dict Job)
    → NodupKeys d
    → ((k : String) (j : Job) → lookup k d ≡ some j → j.rec.job_id ≡ k)
    → AllNamed d
unfolding lookup
named-AllNamed [] u h = tt
named-AllNamed ((i, j) ∷ d) (fresh, u) h =
    (h i j (ground arith), named-AllNamed d u (λ k j' e. h k j' (ground arith)))

-- The store after a flush of jobs, for the record of one of them that the table does not have yet.
flush-new :
    (env : Env) (k : String) (j : Job) (r : Registry)
    → env.db ≡ true
    → AllNamed r.jobs
    → NodupKeys r.jobs
    → lookup k r.jobs ≡ some j
    → lookup k r.store ≡ none
    → lookup k (flush env r).store ≡ some (row_of (owner_of env r) j.rec)
unfolding flush
flush-new env k j r commits n u e new = ground (
  arith,
  lookup-upsert_jobs k (owner_of env r) (records r.jobs) r.store (records-Distinct r.jobs n u),
  find_record-records k r.jobs n,
)

-- The same of a job that is put under a new id.
put-stored :
    (env : Env) (id : String) (j : Job) (r s : Registry)
    → Inv r
    → env.db ≡ true
    → j.rec.job_id ≡ id
    → s.jobs ≡ insert id j r.jobs
    → (s.store ≡ r.store) × (owner_of env s ≡ owner_of env r)
    → lookup id r.store ≡ none
    → lookup id (flush env s).store ≡ some (row_of (owner_of env r) j.rec)
put-stored env id j r s v commits p q (t, o) new =
    flush-new env id j s commits
      (rw q (insert-AllNamed id j r.jobs p (named-AllNamed r.jobs v.nodup v.named)))
      (rw q (insert-NodupKeys id j r.jobs v.nodup)) (rw q (lookup-insert_self id j r.jobs))
      (rw t new)
    ∙ ap (λ w. some (row_of w j.rec)) o

-- The record that a submit returns.
abbrev pub admitted : Env → Job → Registry → Job
admitted env j r = if ltb r.slots r.cap then starting env.now j else mark queued env.now j

try_admit_lem :
    (env : Env) (id : String) (j : Job) (r : Registry)
    → ((try_admit env id j r).0.jobs ≡ insert id (admitted env j r) r.jobs)
      × ((try_admit env id j r).0.store ≡ r.store)
      × (owner_of env (try_admit env id j r).0 ≡ owner_of env r)
      × ((admitted env j r).rec.job_id ≡ j.rec.job_id)
unfolding try_admit starting mark owner_of
try_admit_lem env id j r = ground arith

submit_lem :
    (env : Env) (minted : String) (spec : Spec) (r : Registry)
    → env.db ≡ true
    → submit env minted spec r ≡ (
      flush env (try_admit env (job_id_of minted spec) (new_job env.now minted spec) r).0,
      some (admitted env (new_job env.now minted spec) r).rec,
    )
unfolding submit try_admit
submit_lem env minted spec r commits = ground arith

-- The section of a submit that reports success has stored the record that it puts into the registry, in
-- the server's own row: in a reachable registry, for an id that neither the registry nor the table has.
pub section_is_stored :
    (env : Env) (minted : String) (spec : Spec) (r : Registry)
    → Reachable r
    → lookup (job_id_of minted spec) r.jobs ≡ none
    → lookup (job_id_of minted spec) r.store ≡ none
    → env.db ≡ true
    → (rec : JobRecord) × ((submit env minted spec r).1 ≡ some rec)
      × (rec.job_id ≡ job_id_of minted spec)
      × (lookup (job_id_of minted spec) (submit env minted spec r).0.store
          ≡ some (row_of (owner_of env r) rec))
unfolding new_job
section_is_stored env minted spec r w new absent commits =
    let id = job_id_of minted spec in
    let j = new_job env.now minted spec in
    let e = submit_lem env minted spec r commits in
    let (jobs, store, owner, own) = try_admit_lem env id j r in
    (
      (admitted env j r).rec,
      ap (λ (t : Registry × Option JobRecord). t.1) e,
      own,
      ap (λ (t : Registry × Option JobRecord). lookup id t.0.store) e
          ∙ put-stored env id (admitted env j r) r _ (Reachable-Inv w) commits own jobs
              (store, owner) absent,
    )
