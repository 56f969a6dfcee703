-- ===== src/Jobs/Registry/Steps.antt =====
-- The registry as a state machine: the calls of its clients and the moves of its goroutines, in any
-- order. An event that the phase of its job does not allow changes nothing.
pub mod Invariant
pub mod Locals
pub mod Queue
pub mod Slots
pub mod Endings
pub mod Safety
pub mod Capacity
pub mod Evolution
pub mod Lifecycle
pub mod Forward
pub mod Persistence
pub mod Order
use pi_mcp.Prelude.{
  ℕ, Bool, true, false, ◌&&◌, ◌||◌, String, Option, none, some, List, [], ◌∷◌, if◌then◌else◌,
}
use pi_mcp.Prelude.Clock.{ℤ}
use pi_mcp.Prelude.Dict.{lookup}
use pi_mcp.Model.{Bytes, Status, is_aborted}
use pi_mcp.Jobs.Job.{
  Spec, Correlate, awaiting, polling, Phase, launching, tail, ready, waiting, retrying, relaunching,
  undecided, finishing, Job,
}
use pi_mcp.Jobs.Registry.{Registry, Env, put, submit}
use pi_mcp.Jobs.Registry.Launch.{
  cancel_context, is_live, launched, launch_failed, begin_attempt, after_wait, decide, is_over,
  reset_attempt, relaunched,
}
use pi_mcp.Jobs.Registry.Correlation.{session_event, poll_run, stop_correlate}
use pi_mcp.Jobs.Registry.Finish.{finish, finish_tail}
use pi_mcp.Jobs.Registry.Cancel.{cancel, close}

-- What moves the job of a given id.
pub data Move : Type 0 where
  launches : ℤ → Move
  launch_fails : String → Move
  waits : Option String → Move
  begins stops resets finishes kills : Move
  decides : Bool → Move
  session : String → Option String → Move
  polls : Option String → Move
  ends : Bytes → Move

pub data Event : Type 0 where
  submits : String → Spec → Event
  cancels : String → Event
  closes : Event
  moves : String → Move → Event

-- A goroutine runs its next section.
unfoldable pub by_phase : Phase → Move → Env → String → Job → Registry → Registry
by_phase launching (Move.launches pid) env id j r = launched env id pid j r
by_phase launching (Move.launch_fails msg) env id j r = launch_failed id msg j r
by_phase (ready n) Move.begins env id j r = begin_attempt env id n j r
by_phase (waiting n) (Move.waits res) env id j r = after_wait id n res j r
by_phase (undecided n msg) (Move.decides has_run_file) env id j r = decide has_run_file id n msg j r
by_phase (retrying n) Move.resets env id j r = reset_attempt env id n j r
by_phase (relaunching n) (Move.launches pid) env id j r = relaunched env id n pid j r
by_phase (relaunching n) (Move.launch_fails msg) env id j r = launch_failed id msg j r
by_phase (finishing status code msg) Move.finishes env id j r =
    if is_over j.correlated then finish env id status code msg j r else r
by_phase tail (Move.ends snap) env id j r = finish_tail env id snap j r
by_phase _ _ env id j r = r

unfoldable pub by_correlate : Correlate → Move → Env → String → Job → Registry → Registry
by_correlate awaiting (Move.session sid found) env id j r = session_event env found id sid j r
by_correlate awaiting Move.stops env id j r = stop_correlate id j r
by_correlate (polling sid) (Move.polls found) env id j r = poll_run env found id j r
by_correlate (polling sid) Move.stops env id j r = stop_correlate id j r
by_correlate _ _ env id j r = r

-- The cancel function of a job that a cancel marked aborted, or of any job once Close has begun.
unfoldable pub kill : String → Job → Registry → Registry
kill id j r =
    if is_live j.ctx && (is_aborted j.rec.status || r.closed)
    then put id (cancel_context j) r
    else r

unfoldable pub move : Move → Env → String → Job → Registry → Registry
unfolding by_phase by_correlate kill
move Move.kills env id j r = kill id j r
move (Move.session sid found) env id j r =
    by_correlate j.correlated (Move.session sid found) env id j r
move (Move.polls found) env id j r = by_correlate j.correlated (Move.polls found) env id j r
move Move.stops env id j r = by_correlate j.correlated Move.stops env id j r
move m env id j r = by_phase j.phase m env id j r

unfoldable pub step : Env → Event → Registry → Registry
unfolding move submit cancel close
step env (submits minted spec) r = (submit env minted spec r).0
step env (cancels id) r = (cancel env id r).0
step env closes r = close env r
step env (moves id m) r = elim (lookup id r.jobs) [ none ↦ r | some j ↦ move m env id j r ]
