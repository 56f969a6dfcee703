-- ===== src/Tests/Details.antt =====
-- A job whose run file is gone, at the theorems about the detail of a job.
use pi_mcp.Prelude.{
  ℕ, ◌+◌, ◌≡◌, refl, true, false, not, ◌&&◌, ◌||◌, Option, none, some, [], ◌∷◌, map, same, ◌==◌,
  leb, ltb, string_dec,
}
use pi_mcp.Prelude.Clock.{pos, max_duration}
use pi_mcp.Prelude.Dict.{lookup}
use pi_mcp.Config.{stale_threshold}
use pi_mcp.Model.{Bytes, JobRecord, Run, read, completed}
use pi_mcp.Jobs.Store.{Store, Row}
use pi_mcp.JobsAdapter.Tree.{file}
use pi_mcp.Dashboard.Activity.{newest_time, worktree_active, worktree_active_iff}
use pi_mcp.Dashboard.State.{Seen}
use pi_mcp.Dashboard.Detail.{
  JobDetail, agent_view, build_detail, read_registry, read_job_snapshot, decode_snapshot,
  run_or_snapshot,
}
use pi_mcp.Dashboard.Detail.Agreement.{Agrees, build_detail-Agrees}
use pi_mcp.Dashboard.Server.{Look, trim_prefix, handle_job, write_json}
use pi_mcp.Dashboard.Server.Snapshot.{handle_job-gone}
use pi_mcp.Tests.Tables.{record_of}
use pi_mcp.Tests.Answers.{run_of}

worktree_active_iff_example :
    let newest = newest_time false (some (file "notes" (some 5))) in
    worktree_active "/wt" false (some (file "notes" (some 5))) 9 ≡ (
      not (same "/wt" "")
      && (not (newest == 0)
          && ((leb newest (9 + stale_threshold) && leb 9 (newest + stale_threshold))
              || ltb (9 + max_duration) newest)))
worktree_active_iff_example = worktree_active_iff "/wt" false (some (file "notes" (some 5))) 9

-- A time of change behind the largest duration counts as activity.
active_in_far_future :
    worktree_active "/wt" false (some (file "notes" (some (max_duration + 10)))) 9 ≡ true
unfolding worktree_active string_dec
active_in_far_future = refl

abbrev ended_run : Run
ended_run = run_of completed [] []

abbrev parse : Bytes → Option Run
parse b = some ended_run

abbrev ended_job : JobRecord
ended_job = record (record_of "a" read completed (pos 4)) { run_snapshot = 1 ∷ [] }

abbrev ended_row : Row
ended_row = record { job = ended_job; owner_pid = pos 4; owner_started_at = "s"; updated_at = 5 }

abbrev store : Store
store = ("a", ended_row) ∷ []

abbrev decode_any : Bytes → Option ℕ
decode_any b = some 0

abbrev encode : JobDetail ℕ → Option Bytes
encode d = some (1 ∷ [])

abbrev read_nothing : JobRecord → Look
read_nothing rec = record { run = none; again = none; active = false; authoring = none }

build_detail-Agrees_example : Agrees decode_any (
    build_detail decode_any parse
      (record { rec = ended_job; run = some ended_run; active = false })
      none
      none
      9)
unfolding run_or_snapshot
build_detail-Agrees_example =
    build_detail-Agrees decode_any parse
      (record { rec = ended_job; run = some ended_run; active = false }) none none 9 refl

handle_job-gone_example :
    let seen : Seen = record { rec = ended_job; run = some ended_run; active = false } in
    let d = build_detail decode_any parse seen (some ended_run) none 9 in
    (handle_job decode_any parse encode
        (some (read_registry (some store)))
        (λ rec. false)
        (λ i. some (read_job_snapshot (some store) i))
        read_nothing
        9
        "/api/job/a"
      ≡ write_json decode_any parse encode d)
    × (d.agents ≡ map agent_view ended_run.agents)
unfolding lookup trim_prefix decode_snapshot string_dec
handle_job-gone_example =
    handle_job-gone decode_any parse encode store "a" "/api/job/a" ended_row ended_run
      (λ rec. false) read_nothing 9 (refl, tt) refl refl refl refl refl refl refl
