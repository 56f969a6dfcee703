-- ===== src/Jobs/Registry/Launch.antt =====
-- internal/jobs/registry.go: start, and the loop of runAttempts between its calls of the launcher,
-- of wait and of finish.
use pi_mcp.Prelude.{
  ℕ, suc, Bool, true, false, not, ◌&&◌, ◌||◌, String, Option, none, some, List, [], ◌∷◌, ltb,
  if◌then◌else◌,
}
use pi_mcp.Prelude.Clock.{ℤ}
use pi_mcp.Prelude.Text.{codes, ends_with}
use pi_mcp.RunStore.Files.{Entry, Listing, missing, unreadable, entries}
use pi_mcp.Config.{err_agent_execution_error, max_authoring_retries}
use pi_mcp.Model.{completed, failed, aborted, is_aborted}
use pi_mcp.Jobs.Job.{
  Context, live, cancelled, Correlate, unstarted, awaiting, exited, abandoned, ready, waiting,
  retrying, relaunching, undecided, finishing, Job,
}
use pi_mcp.Jobs.Registry.{Registry, Env, put, flush}

-- `cancel()`, and `attemptCancel()`, which ends the correlate goroutine of the attempt in time.
abbrev pub cancel_context : Job → Job
cancel_context j = record j { ctx = cancelled }

-- The end of start: the process is known, unless Close came first.
unfoldable pub launched : Env → String → ℤ → Job → Registry → Registry
unfolding flush
launched env id pid j r =
    if r.closed
    then put id (record (cancel_context j) { phase = abandoned }) r
    else flush env (
        put id
          (record j { rec = record (j.rec) { pid = pid }; updated_at = env.now; phase = ready 0 })
          r)

-- The launcher's error, on the first launch and on a relaunch.
unfoldable pub launch_failed : String → String → Job → Registry → Registry
launch_failed id msg j r =
    put id (record (cancel_context j) { phase = finishing failed err_agent_execution_error msg }) r

-- The first section of an attempt starts its correlate goroutine.
unfoldable pub begin_attempt : Env → String → ℕ → Job → Registry → Registry
unfolding flush
begin_attempt env id n j r =
    flush env (put id (record j { correlated = awaiting; phase = waiting n }) r)

-- What follows wait(): success, or the check whether a cancel caused the failure.
unfoldable pub after_wait : String → ℕ → Option String → Job → Registry → Registry
after_wait id n none j r =
    put id (record (cancel_context j) { phase = finishing completed "" "" }) r
after_wait id n (some msg) j r =
    if is_aborted j.rec.status
    then put id (record (cancel_context j) { phase = finishing aborted "" "" }) r
    else put id (record j { phase = undecided n msg }) r

abbrev pub is_run_file : Entry → Bool
is_run_file e = not e.is_dir && ends_with (codes e.name) (codes ".json")

unfoldable pub some_run_file : List Entry → Bool
some_run_file [] = false
some_run_file (e ∷ es) = is_run_file e || some_run_file es

-- What `decide` reads: whether the directory of the runs has a file of any run.
unfoldable pub run_file_exists : Listing → Bool
unfolding some_run_file
run_file_exists missing = false
run_file_exists unreadable = false
run_file_exists (entries es) = some_run_file es

abbrev pub is_live : Context → Bool
is_live live = true
is_live _ = false

-- Only a failure before any run file, of a job that nobody cancelled, is tried again.
unfoldable pub decide : Bool → String → ℕ → String → Job → Registry → Registry
decide has_run_file id n msg j r =
    if ltb n max_authoring_retries && is_live j.ctx && not has_run_file
    then put id (record j { phase = retrying n }) r
    else put id
        (record (cancel_context j) { phase = finishing failed err_agent_execution_error msg }) r

-- `<-correlated` waits for the goroutine, if one was started.
abbrev pub is_over : Correlate → Bool
is_over unstarted = true
is_over exited = true
is_over _ = false

unfoldable pub reset_attempt : Env → String → ℕ → Job → Registry → Registry
unfolding flush
reset_attempt env id n j r =
    if is_over j.correlated
    then flush env (
        put id
          (record j {
            rec = record (j.rec) { run_id = ""; session_id = "" };
            updated_at = env.now;
            phase = relaunching n;
          })
          r)
    else r

unfoldable pub relaunched : Env → String → ℕ → ℤ → Job → Registry → Registry
unfolding flush
relaunched env id n pid j r = flush env (
    put id
      (record j { rec = record (j.rec) { pid = pid }; updated_at = env.now; phase = ready (suc n) })
      r)
