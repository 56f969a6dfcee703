-- ===== src/Jobs/Registry/Steps/Order.antt =====
-- The order in which queued jobs start.
use pi_mcp.Prelude.{
  ◌+◌, ◌-◌, ◌≡◌, ◌≢◌, ap, ◌∙◌, true, false, String, some, List, ◌∷◌, arith, if◌then◌else◌,
}
use pi_mcp.Prelude.Dict.{lookup, lookup-insert, lookup-insert_self}
use pi_mcp.Model.{Status}
use pi_mcp.Jobs.Job.{Job, finishing, tail, starting}
use pi_mcp.Jobs.Registry.{Registry, Env, put, flush}
use pi_mcp.Jobs.Registry.Finish.{
  settle, finish, release_slot, promote, promote_from, is_slot_status,
}
use pi_mcp.Jobs.Registry.Steps.Invariant.{Inv, idle_at}
use pi_mcp.Jobs.Registry.Steps.Locals.{flush-SameCore}
use pi_mcp.Jobs.Registry.Steps.Slots.{admit_next_lem}
use pi_mcp.Jobs.Registry.Steps.Endings.{settled-Freed}
use pi_mcp.Jobs.Registry.Steps.Safety.{Reachable, Reachable-Inv}

module _ (env : Env) (r : Registry) (id k : String) (rest : List String) (j i : Job)
    (status : Status) (code msg : String) where
  -- The job that ends, and the registry with its slot free.
  abbrev ended : Job
  ended = record (settle env.now status code msg j) { phase = tail }

  abbrev freed : Registry
  freed = record (put id ended r) { slots = r.slots - 1 }

  abbrev head_started : Registry
  head_started = put k (starting env.now i) (record freed { slots = freed.slots + 1; queue = rest })

  head-ne-ended :
      Inv r
      → lookup id r.jobs ≡ some j
      → j.phase ≡ finishing status code msg
      → r.queue ≡ k ∷ rest
      → id ≢ k
  head-ne-ended v e p q same_job =
      let waits : idle_at k r.jobs ≡ true = v.lined_up k (ground arith) in ground arith

  finish_lem :
      Inv r
      → lookup id r.jobs ≡ some j
      → j.phase ≡ finishing status code msg
      → r.closed ≡ false
      → r.queue ≡ k ∷ rest
      → lookup k r.jobs ≡ some i
      → finish env id status code msg j r ≡ flush env head_started
  unfolding finish release_slot promote promote_from
  finish_lem v e p open_ q there =
      let there' : lookup k freed.jobs ≡ some i =
        ground (arith, lookup-insert k id ended r.jobs, head-ne-ended v e p q) in
      let step =
        admit_next_lem env k rest i freed there'
          (settled-Freed env id j r v e status code msg p).room in
      let slot : is_slot_status j.rec.status ≡ true = ground (arith, v.sound id j e) in
      let settled = put id ended r in
      ap (flush env) (
        ap (λ b. if b then release_slot env settled else settled) slot
        ∙ ap (λ b. if b then freed else promote env freed) open_
        ∙ ap (λ ks. promote_from env ks freed) q
        ∙ step)

-- In a reachable registry that is open, the end of a job gives its slot to the head of the queue:
-- the head starts, the rest of the queue keeps its order, and the number of slots taken stays.
pub slot_passes_to_head :
    (env : Env) (r : Registry) (id k : String) (rest : List String) (j i : Job) (status : Status)
    (code msg : String)
    → Reachable r
    → lookup id r.jobs ≡ some j
    → j.phase ≡ finishing status code msg
    → r.closed ≡ false
    → r.queue ≡ k ∷ rest
    → lookup k r.jobs ≡ some i
    → let r' = finish env id status code msg j r in
      (lookup k r'.jobs ≡ some (starting env.now i)) × (r'.queue ≡ rest) × (r'.slots ≡ r.slots)
slot_passes_to_head env r id k rest j i status code msg w e p open_ q there =
    let v = Reachable-Inv w in
    let f = settled-Freed env id j r v e status code msg p in
    let s = head_started env r id k rest j i status code msg in
    let core = flush-SameCore env s in
    let done = finish_lem env r id k rest j i status code msg v e p open_ q there in
    (
      ap (λ (t : Registry). lookup k t.jobs) done
          ∙ ap (lookup k) core.jobs
          ∙ lookup-insert_self k (starting env.now i) _,
      ap (λ (t : Registry). t.queue) done ∙ core.queue,
      ap (λ (t : Registry). t.slots) done ∙ core.slots ∙ ground (arith, f.full, v.full),
    )
