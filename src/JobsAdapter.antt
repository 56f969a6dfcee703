-- ===== src/JobsAdapter.antt =====
-- internal/app/jobs_adapter.go: the registry and the worktrees behind the service that the handlers
-- call. The state of the operating system is that of Worktree.
pub mod Tree
pub mod Scan
pub mod Submit
pub mod Service
use pi_mcp.Prelude.{
  ℕ, ◌*◌, Bool, true, false, not, ◌&&◌, ◌||◌, String, Option, none, some, List, [], ◌∷◌, ◌==◌, ltb,
  same, if◌then◌else◌, length,
}
use pi_mcp.Prelude.Dict.{Dict, lookup, insert}
use pi_mcp.Config.{runs_dir_rel}
use pi_mcp.Model.{Bytes, Run, JobMode, JobRecord, WriteInfo, is_write}
use pi_mcp.Worktree.{Os, Handle, Answer, ok, failed, Error, new_manager, create, write_info}
use pi_mcp.Jobs.Job.{Spec}
use pi_mcp.Jobs.Registry.{Registry}
use pi_mcp.Jobs.Registry.Call.{Call, call_submit}
use pi_mcp.Jobs.Registry.Cancel.{lookup_job}
use pi_mcp.JobsAdapter.Tree.{Node, scan_worktree_activity}

abbrev pub max_snapshot_bytes : ℕ
max_snapshot_bytes = 4 * 1048576

-- The run of a job as canonical JSON: `read` is runstore.ReadRun and `marshal` encoding/json.
-- `none` stands for nil.
unfoldable pub snapshot_run_file : Option Run → (Run → Option Bytes) → Option Bytes
snapshot_run_file read marshal = elim read [
  | none ↦ none
  | some run ↦ elim (marshal run) [
    | none ↦ none
    | some b ↦ if ltb max_snapshot_bytes (length b) then none else some b
  ]
]

-- The JobSpec of the handlers.
pub record JobSpec : Type 0 where
  pub mode : JobMode
  pub cwd : String
  pub task : String
  pub context : String

-- The manager is the directory of its repository.
pub record WriteHandle : Type 0 where
  pub repo : String
  pub handle : Handle

pub record Adapter (World : Type 0) : Type 0 where
  pub reg : Registry
  pub handles : Dict WriteHandle
  pub world : World

pub data SubmitError : Type 0 where
  worktree_error : Error → SubmitError
  registry_error : SubmitError

pub data Submitted : Type 0 where
  accepted : JobRecord → Submitted
  refused : SubmitError → Submitted

-- `base` is the directory of the worktrees.
module _ {World : Type 0} (os : Os World) (base : String) where
  abbrev pub runs_dir_of : String → String
  runs_dir_of cwd = os.join cwd runs_dir_rel

  unfoldable pub spec_of : JobSpec → Spec
  spec_of input = record {
    mode = input.mode;
    cwd = input.cwd;
    runs_dir = runs_dir_of input.cwd;
    task = input.task;
    context = input.context;
    worktree = "";
    branch = "";
    job_id = "";
    preassigned_id = "";
  }

  unfoldable pub in_worktree : String → Handle → Spec → Spec
  in_worktree id h spec = record spec {
    preassigned_id = id;
    worktree = h.path;
    branch = h.branch;
    cwd = h.path;
    runs_dir = runs_dir_of h.path;
  }

  unfoldable pub remember : String → WriteHandle → Adapter World → Adapter World
  remember id wh a = record a { handles = insert id wh a.handles }

  -- The last line of Submit.
  unfoldable pub to_registry : Call → String → Spec → Adapter World → Adapter World × Submitted
  unfolding call_submit
  to_registry c minted spec a =
      let (reg, rec) = call_submit c minted spec a.reg in
      (record a { reg = reg }, elim rec [ none ↦ refused registry_error | some r ↦ accepted r ])

  unfoldable pub submit_write : Call → String → JobSpec → Adapter World → Adapter World × Submitted
  unfolding spec_of in_worktree remember to_registry
  submit_write c id input a =
      let (w1, refusal) = new_manager os input.cwd a.world in
      elim refusal [
        | some e ↦ (record a { world = w1 }, refused (worktree_error e))
        | none ↦
            let (w2, made) = create os base input.cwd id w1 in
            elim made [
              | failed e ↦ (record a { world = w2 }, refused (worktree_error e))
              | ok h ↦
                  to_registry c id (in_worktree id h (spec_of input)) (
                    remember id (record { repo = input.cwd; handle = h }) (record a { world = w2 }))
            ]
      ]

  -- `id` is a fresh id of the uuid library, which the registry mints for a job that reads.
  unfoldable pub submit : Call → String → JobSpec → Adapter World → Adapter World × Submitted
  unfolding submit_write
  submit c id input a =
      if is_write input.mode then submit_write c id input a else to_registry c id (spec_of input) a

  -- The worktree is staged first, whatever comes of it. `none` stands for false.
  unfoldable pub write_info_for : String → Adapter World → Adapter World × Option WriteInfo
  write_info_for id a = elim (lookup id a.handles) [
    | none ↦ (a, none)
    | some wh ↦
        let w1 = (os.git wh.handle.path ("add" ∷ "-A" ∷ []) a.world).0 in
        let (w2, info) = write_info os wh.handle w1 in
        (record a { world = w2 }, elim info [ failed e ↦ none | ok wi ↦ some wi ])
  ]

  -- `tree` is the file tree of a directory; the files and the latest time of change of one of them.
  unfoldable pub worktree_activity :
      (String → Option Node) → String → Adapter World → Option (ℕ × ℕ)
  unfolding lookup_job
  worktree_activity tree id a = elim (lookup_job id a.reg) [
    | none ↦ none
    | some rec ↦
        if not (is_write rec.mode) || same rec.worktree_path ""
        then none
        else let (files, newest) = scan_worktree_activity (tree rec.worktree_path) in
          if files == 0 then none else some (files, newest)
  ]
