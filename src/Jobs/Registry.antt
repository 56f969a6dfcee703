-- ===== src/Jobs/Registry.antt =====
-- internal/jobs/registry.go and cancel.go: the registry. Each locked section of the code is one
-- function on the registry's state; what happens between two sections of a job is its phase.
-- A job is named by its id, which the uuid library makes fresh, where the code has a pointer.
pub mod Launch
pub mod Correlation
pub mod Finish
pub mod Cancel
pub mod Steps
pub mod Call
use pi_mcp.Prelude.{
  ℕ, suc, ◌+◌, ◌-◌, Bool, true, false, not, ◌&&◌, ◌||◌, String, Option, none, some, List, [], ◌∷◌,
  ◌++◌, ltb, same, if◌then◌else◌,
}
use pi_mcp.Prelude.Clock.{ℤ}
use pi_mcp.Prelude.Dict.{Dict, lookup, insert, erase}
use pi_mcp.Config.{
  err_agent_execution_error, err_workflow_aborted, max_authoring_retries, default_concurrency_cap,
}
use pi_mcp.Model.{Bytes, JobRecord, Status, queued, running, completed, failed, aborted, is_write}
use pi_mcp.LiveStatus.{is_terminal}
use pi_mcp.Jobs.Store.{Store, Owner, upsert_jobs, save_snapshot}
use pi_mcp.Jobs.Job.{
  Spec, Context, live, cancelled, unset, Correlate, unstarted, awaiting, polling, exited, Phase,
  idle, launching, abandoned, tail, over, ready, waiting, retrying, relaunching, undecided,
  finishing, Job, job_id_of, new_job, mark, starting,
}

-- `slots` is the number of tokens in the channel of `cap`. `pruned` lists the calls of the pruner,
-- the last one first; `panicked` is set by a second close of a job's done channel.
pub record Registry : Type 0 where
  pub jobs : Dict Job
  pub queue : List String
  pub slots : ℕ
  pub cap : ℕ
  pub closed : Bool
  pub store : Store
  pub owner_pid : ℤ
  pub owner_started_at : String
  pub pruned : List (String × String)
  pub panicked : Bool

-- What a section reads from outside: the clock, and whether its transaction commits.
pub record Env : Type 0 where
  pub now : ℕ
  pub db : Bool

-- A cap of 0 stands for every value that is not positive.
unfoldable pub new_registry : ℕ → ℤ → String → Store → Registry
new_registry cap owner_pid owner_started_at store = record {
  jobs = [];
  queue = [];
  slots = 0;
  cap = if ltb 0 cap then cap else default_concurrency_cap;
  closed = false;
  store = store;
  owner_pid = owner_pid;
  owner_started_at = owner_started_at;
  pruned = [];
  panicked = false;
}

unfoldable pub records : Dict Job → List JobRecord
records [] = []
records ((k, j) ∷ d) = j.rec ∷ records d

unfoldable pub owner_of : Env → Registry → Owner
owner_of env r = record { pid = r.owner_pid; started_at = r.owner_started_at; now = env.now }

-- A transaction that fails changes nothing; only submit looks at the error.
unfoldable pub flush : Env → Registry → Registry
unfolding owner_of
flush env r =
    if env.db then record r { store = upsert_jobs (owner_of env r) (records r.jobs) r.store } else r

abbrev pub put : String → Job → Registry → Registry
put id j r = record r { jobs = insert id j r.jobs }

unfoldable pub remove_from_queue : String → List String → List String
remove_from_queue id [] = []
remove_from_queue id (k ∷ ks) =
    let rest = remove_from_queue id ks in if same k id then rest else k ∷ rest

-- The job as admitted or queued, and the registry with its slot or its place in the queue.
unfoldable pub try_admit : Env → String → Job → Registry → Registry × Bool
unfolding starting mark
try_admit env id j r =
    if ltb r.slots r.cap
    then (put id (starting env.now j) (record r { slots = r.slots + 1 }), true)
    else (put id (mark queued env.now j) (record r { queue = r.queue ++ (id ∷ []) }), false)

-- The rollback of a submit whose transaction failed.
unfoldable pub roll_back : String → Bool → Registry → Registry
unfolding remove_from_queue
roll_back id admitted r =
    let r' = record r { jobs = erase id r.jobs } in
    if admitted
    then record r' { slots = r.slots - 1 }
    else record r' { queue = remove_from_queue id r.queue }

-- The first locked section of Submit, with the record that it puts into the registry; `none` is its
-- error. Call has the whole of Submit.
unfoldable pub submit : Env → String → Spec → Registry → Registry × Option JobRecord
unfolding new_job job_id_of try_admit roll_back flush
submit env minted spec r =
    let id = job_id_of minted spec in
    let j = new_job env.now minted spec in
    let (r', admitted) = try_admit env id j r in
    if env.db
    then (
      flush env r',
      some (if admitted then (starting env.now j).rec else (mark queued env.now j).rec),
    )
    else (roll_back id admitted r', none)
