-- ===== src/Jobs/Registry/Correlation.antt =====
-- internal/jobs/registry.go: correlate and tryResolveRunUnlocked, and runFileExists over the entries
-- of a directory. `found` is the correlator's answer, read under the lock.
use pi_mcp.Prelude.{Bool, true, false, not, String, Option, none, some, same, if◌then◌else◌}
use pi_mcp.Jobs.Job.{polling, exited, Job}
use pi_mcp.Jobs.Registry.{Registry, Env, put, flush}

-- The run id after the attempt to resolve it, and whether it is known.
unfoldable pub resolve_run : Option String → String → String × Bool
resolve_run found run_id =
    if not (same run_id "")
    then (run_id, true)
    else elim found [ none ↦ (run_id, false) | some run ↦ (run, true) ]

-- The session event: its id is kept at once. An empty id, or a closed channel, ends the goroutine.
unfoldable pub session_event : Env → Option String → String → String → Job → Registry → Registry
unfolding resolve_run flush
session_event env found id sid j r =
    if same sid ""
    then put id (record j { correlated = exited }) r
    else let (run, known) = resolve_run found j.rec.run_id in
      flush env (
        put id
          (record j {
            rec = record (j.rec) { session_id = sid; run_id = run };
            updated_at = env.now;
            correlated = if known then exited else polling sid;
          })
          r)

-- A wake of the poll, by the ticker or a file event.
unfoldable pub poll_run : Env → Option String → String → Job → Registry → Registry
unfolding resolve_run flush
poll_run env found id j r =
    let (run, known) = resolve_run found j.rec.run_id in
    if known
    then flush env (
        put id
          (record j {
            rec = record (j.rec) { run_id = run };
            updated_at = env.now;
            correlated = exited;
          })
          r)
    else r

-- The attempt's context is done.
unfoldable pub stop_correlate : String → Job → Registry → Registry
stop_correlate id j r = put id (record j { correlated = exited }) r
