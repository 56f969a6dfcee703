-- ===== src/McpServer/Handlers.antt =====
-- internal/mcpserver: handler_workflow.go, handler_list.go and handler_cancel.go over the service of
-- the jobs (ports.go) and the store of the runs.
pub mod Contract
use pi_mcp.Prelude.{
  ℕ, zero, suc, Bool, true, false, String, Option, none, some, List, [], same, if◌then◌else◌,
}
use pi_mcp.Prelude.Text.{codes}
use pi_mcp.Prelude.Clock.{ℤ, pos, negsuc}
use pi_mcp.Model.{JobMode, Status, JobRecord, is_write}
use pi_mcp.RunStore.Files.{ListItem}
use pi_mcp.McpServer.Validate
use pi_mcp.McpServer.Validate.{validate_mode, validate_cwd, is_blank}
use pi_mcp.JobsAdapter.{JobSpec}

-- The operations of JobsService that these handlers call, on the service's state. `none` is an error.
pub record JobsService (S : Type 0) : Type 0 where
  pub submit : JobSpec → S → S × Option JobRecord
  pub lookup : String → S → Option JobRecord
  pub cancel : String → S → S × Option JobRecord

pub record WorkflowInput : Type 0 where
  pub task : String
  pub mode : String
  pub cwd : String
  pub context : String

-- `started_at` is written in RFC 3339.
pub record WorkflowOutput : Type 0 where
  pub job_id : String
  pub status : Status
  pub mode : JobMode
  pub cwd : String
  pub worktree_path : String
  pub started_at : ℕ

pub record CancelOutput : Type 0 where
  pub job_id : String
  pub status : Status

pub data Fault : Type 0 where
  task_required bad_mode bad_cwd job_id_required refused_by_jobs unreadable_runs : Fault

pub data Reply (A : Type 0) : Type 0 where
  reply : A → Reply A
  fault : Fault → Reply A

unfoldable pub workflow_output : JobRecord → WorkflowOutput
workflow_output rec = record {
  job_id = rec.job_id;
  status = rec.status;
  mode = rec.mode;
  cwd = rec.cwd;
  worktree_path = if is_write rec.mode then rec.worktree_path else "";
  started_at = rec.started_at;
}

abbrev pub default_list_limit : ℕ
default_list_limit = 20

-- A limit that is not positive stands for the default.
unfoldable pub limit_of : ℤ → ℕ
limit_of (pos zero) = default_list_limit
limit_of (pos (suc n)) = suc n
limit_of (negsuc n) = default_list_limit

-- `list_items` is runstore.ListItems; the order of the checks is that of the code.
unfoldable pub handle_list :
    Validate.Files → (String → ℕ → Option (List ListItem)) → String → ℤ → Reply (List ListItem)
unfolding validate_cwd limit_of
handle_list files list_items cwd limit = elim (validate_cwd files cwd) [
  | none ↦ fault bad_cwd
  | some dir ↦ elim (list_items dir (limit_of limit)) [
    | none ↦ fault unreadable_runs
    | some items ↦ reply items
  ]
]

module _ {S : Type 0} (jobs : JobsService S) where
  unfoldable pub answer_workflow : S × Option JobRecord → S × Reply WorkflowOutput
  unfolding workflow_output
  answer_workflow (s, none) = (s, fault refused_by_jobs)
  answer_workflow (s, some rec) = (s, reply (workflow_output rec))

  unfoldable pub handle_workflow : Validate.Files → WorkflowInput → S → S × Reply WorkflowOutput
  unfolding is_blank validate_mode validate_cwd answer_workflow
  handle_workflow files input s =
      if is_blank (codes input.task)
      then (s, fault task_required)
      else elim (validate_mode input.mode) [
        | none ↦ (s, fault bad_mode)
        | some mode ↦ elim (validate_cwd files input.cwd) [
          | none ↦ (s, fault bad_cwd)
          | some cwd ↦ answer_workflow (
              jobs.submit
                (record { mode = mode; cwd = cwd; task = input.task; context = input.context }) s)
        ]
      ]

  unfoldable pub answer_cancel : S × Option JobRecord → S × Reply CancelOutput
  answer_cancel (s, none) = (s, fault refused_by_jobs)
  answer_cancel (s, some rec) = (s, reply (record { job_id = rec.job_id; status = rec.status }))

  unfoldable pub handle_cancel : String → S → S × Reply CancelOutput
  unfolding is_blank answer_cancel
  handle_cancel job_id s =
      if is_blank (codes job_id)
      then (s, fault job_id_required)
      else answer_cancel (jobs.cancel job_id s)
