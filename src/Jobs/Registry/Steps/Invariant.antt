-- ===== src/Jobs/Registry/Steps/Invariant.antt =====
-- What holds of the registry between two sections.
use pi_mcp.Prelude.{suc, ℕ, ◌≤◌, ◌≡◌, Bool, true, false, String, none, some, List, [], ◌∷◌, mem}
use pi_mcp.Prelude.Dict.{Dict, lookup, count, NodupKeys}
use pi_mcp.Config.{max_authoring_retries}
use pi_mcp.Model.{queued}
use pi_mcp.LiveStatus.{is_terminal}
use pi_mcp.Jobs.Store.Ownership.{Distinct}
use pi_mcp.Jobs.Job.{
  Phase, idle, tail, over, ready, waiting, retrying, relaunching, undecided, finishing, Job,
}
use pi_mcp.Jobs.Registry.{Registry}
use pi_mcp.Jobs.Registry.Finish.{is_slot_status}
use pi_mcp.Jobs.Registry.Cancel.{is_unset}

-- The phases in which a job holds a slot.
abbrev pub holds_slot : Phase → Bool
holds_slot idle = false
holds_slot tail = false
holds_slot over = false
holds_slot _ = true

abbrev pub holder : Job → Bool
holder j = holds_slot j.phase

abbrev pub is_idle : Phase → Bool
is_idle idle = true
is_idle _ = false

abbrev pub is_ended : Phase → Bool
is_ended tail = true
is_ended over = true
is_ended _ = false

abbrev pub is_closed_phase : Phase → Bool
is_closed_phase over = true
is_closed_phase _ = false

-- The number of the attempt that a phase belongs to.
abbrev pub attempt_of : Phase → ℕ
attempt_of (ready n) = n
attempt_of (waiting n) = n
attempt_of (undecided n msg) = n
attempt_of (retrying n) = suc n
attempt_of (relaunching n) = suc n
attempt_of _ = 0

-- The status that a call of finish was given.
abbrev pub concludes : Phase → Bool
concludes (finishing status code msg) = is_terminal status
concludes _ = true

pub record IsSound (j : Job) : Type 0 where
  pub active : holds_slot j.phase ≡ true → is_slot_status j.rec.status ≡ true
  pub installed : holds_slot j.phase ≡ true → is_unset j.ctx ≡ false
  pub unclosed : is_closed_phase j.phase ≡ false → j.done ≡ false
  pub settled : is_ended j.phase ≡ true → is_terminal j.rec.status ≡ true
  pub pending : is_idle j.phase ≡ true → j.rec.status ≡ queued
  pub conclusive : concludes j.phase ≡ true
  pub bounded : attempt_of j.phase ≤ max_authoring_retries

abbrev pub idle_at : String → Dict Job → Bool
idle_at k d = elim (lookup k d) [ none ↦ false | some j ↦ is_idle j.phase ]

abbrev pub is_nil {ℓ} : {A : Type ℓ} → List A → Bool
is_nil [] = true
is_nil (x ∷ xs) = false

pub record Inv (r : Registry) : Type 0 where
  pub sound : (k : String) (j : Job) → lookup k r.jobs ≡ some j → IsSound j
  pub named : (k : String) (j : Job) → lookup k r.jobs ≡ some j → j.rec.job_id ≡ k
  pub nodup : NodupKeys r.jobs
  pub counted : r.slots ≡ count holder r.jobs
  pub capped : r.slots ≤ r.cap
  pub lined_up : (k : String) → mem k r.queue ≡ true → idle_at k r.jobs ≡ true
  pub unique : Distinct r.queue
  pub full : r.closed ≡ false → is_nil r.queue ≡ false → r.slots ≡ r.cap
  pub calm : r.panicked ≡ false
