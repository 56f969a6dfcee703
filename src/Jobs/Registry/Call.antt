-- ===== src/Jobs/Registry/Call.antt =====
-- internal/jobs/registry.go: Submit as a whole, with its synchronous start and the snapshot that it
-- returns. Between its locked sections the registry belongs to others.
pub mod Section
pub mod Answers
pub mod Stored
pub mod Alone
use pi_mcp.Prelude.{
  ◌+◌, Bool, true, false, String, Option, none, some, List, [], ◌∷◌, if◌then◌else◌,
}
use pi_mcp.Prelude.Clock.{ℤ}
use pi_mcp.Prelude.Dict.{lookup}
use pi_mcp.Model.{Bytes, JobRecord, Status, running}
use pi_mcp.Jobs.Job.{Spec, job_id_of}
use pi_mcp.Jobs.Registry.{Registry, Env, submit}
use pi_mcp.Jobs.Registry.Cancel.{lookup_job}
use pi_mcp.Jobs.Registry.Steps.{Move, Event, submits, cancels, closes, moves, step}

-- A submit of an id that the registry knows does not happen: the uuid library mints none.
abbrev pub is_fresh : Event → Registry → Bool
is_fresh (submits minted spec) r = elim (lookup (job_id_of minted spec) r.jobs) [
  | none ↦ true
  | some j ↦ false
]
is_fresh e r = true

-- The calls and moves of others, in order.
unfoldable pub meanwhile : List (Env × Event) → Registry → Registry
unfolding step
meanwhile [] r = r
meanwhile ((env, e) ∷ events) r = meanwhile events (if is_fresh e r then step env e r else r)

-- What the launcher answers.
pub data LaunchResult : Type 0 where
  has_pid : ℤ → LaunchResult
  launch_error : String → LaunchResult

-- One call of start: what happens until the launcher answers, the answer, the environment of the
-- section after it, and what happens between the section of a finish and its end, which reads the run
-- file.
pub record Launching : Type 0 where
  pub before : List (Env × Event)
  pub result : LaunchResult
  pub env : Env
  pub between : List (Env × Event)
  pub snap : Bytes

unfoldable pub start_job : Launching → String → Registry → Registry
unfolding meanwhile step
start_job l id r =
    let waited = meanwhile l.before r in
    elim l.result [
      | has_pid pid ↦ step l.env (moves id (Move.launches pid)) waited
      | launch_error msg ↦
          let told = step l.env (moves id (Move.launch_fails msg)) waited in
          let finished = step l.env (moves id Move.finishes) told in
          step l.env (moves id (Move.ends l.snap)) (meanwhile l.between finished)
    ]

-- One call of Submit: the environment of its first section, its start, and what happens from there to
-- the snapshot, a start of a next job by a finish among it.
pub record Call : Type 0 where
  pub env : Env
  pub launching : Launching
  pub after : List (Env × Event)

-- Only an admitted job is running at the end of the first section.
abbrev pub was_admitted : Status → Bool
was_admitted running = true
was_admitted _ = false

unfoldable pub start_if : Bool → Launching → String → Registry → Registry
unfolding start_job
start_if admitted l id r = if admitted then start_job l id r else r

-- After the section: the start of an admitted job, and the snapshot of the job.
unfoldable pub after_section :
    Call → String → Registry × Option JobRecord → Registry × Option JobRecord
unfolding start_if meanwhile lookup_job
after_section c id (r, none) = (r, none)
after_section c id (r, some rec) =
    let r' = meanwhile c.after (start_if (was_admitted rec.status) c.launching id r) in
    (r', lookup_job id r')

-- `none` is the error of the first section.
unfoldable pub call_submit : Call → String → Spec → Registry → Registry × Option JobRecord
unfolding after_section submit
call_submit c minted spec r = after_section c (job_id_of minted spec) (submit c.env minted spec r)
