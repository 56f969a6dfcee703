-- ===== src/JobsAdapter/Service.antt =====
-- The adapter as the service of the jobs that the handlers call, and what the tools then promise.
use pi_mcp.Prelude.{true, ◌≡◌, ◌⊎◌, String, Option, none, some}
use pi_mcp.Prelude.Dict.{lookup}
use pi_mcp.Model.{JobRecord, queued, running}
use pi_mcp.Worktree.{Os}
use pi_mcp.Jobs.Registry
use pi_mcp.Jobs.Registry.{Registry}
use pi_mcp.Jobs.Registry.Cancel
use pi_mcp.Jobs.Registry.Cancel.{lookup_job}
use pi_mcp.Jobs.Registry.Steps.Safety.{Reachable}
use pi_mcp.JobsAdapter
use pi_mcp.JobsAdapter.{JobSpec, Adapter, SubmitError, Submitted, accepted, refused}
use pi_mcp.LiveStatus.{is_terminal}
use pi_mcp.Jobs.Registry.Call.{Call}
use pi_mcp.Jobs.Registry.Call.Answers.{Answers}
use pi_mcp.McpServer.Validate
use pi_mcp.McpServer.Handlers.{JobsService}

abbrev record_of : Submitted → Option JobRecord
record_of s = elim s [ accepted rec ↦ some rec | refused e ↦ none ]

module _ {World : Type 0} (os : Os World) (base : String) (c : Call) (id : String) where
  -- One call of each operation: the clock, the fresh id and the launch are those of the call.
  unfoldable pub adapter_service : JobsService (Adapter World)
  unfolding JobsAdapter.submit
  adapter_service = record {
    submit = λ input a. let (a', s) = JobsAdapter.submit os base c id input a in (a', record_of s);
    lookup = λ i a. lookup_job i a.reg;
    cancel = λ i a.
        let (reg, rec) = Registry.Cancel.cancel c.env i a.reg in (record a { reg = reg }, rec);
  }

  -- The registry is one that the server can reach, and does not know the fresh id.
  abbrev pub IsReady : Adapter World → Type 0
  IsReady a = Reachable a.reg × (lookup id a.reg.jobs ≡ none)

  -- An accepted job is found, in the mode that was asked for, queued, running or ended.
  abbrev FoundIn : JobSpec → Adapter World × Submitted → Type 0
  FoundIn input (a, refused e) = Unit {0}
  FoundIn input (a, accepted rec) =
      (lookup_job rec.job_id a.reg ≡ some rec)
      × (rec.mode ≡ input.mode)
      × ((rec.status ≡ queued) ⊎ (rec.status ≡ running) ⊎ (is_terminal rec.status ≡ true))
