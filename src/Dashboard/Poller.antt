-- ===== src/Dashboard/Poller.antt =====
-- internal/dashboard/poller.go: the snapshot of the fleet, its broadcasts, and the directories that
-- the poller watches.
pub mod Watches
pub mod Frames
use pi_mcp.Prelude.{
  ℕ, Bool, true, false, not, ◌&&◌, ◌||◌, String, Option, none, some, List, [], ◌∷◌, ◌++◌, map, mem,
  same, if◌then◌else◌,
}
use pi_mcp.Prelude.Text.{alike}
use pi_mcp.Model.{Bytes, Status, running, queued, JobRecord}
use pi_mcp.Dashboard.State.{DashboardState, Seen, no_counts, build_state}

-- The keys of the map of subscriptions. `opened` and `stopped` are the subscriptions that were made
-- and the handles that were stopped, in order.
pub record Watched : Type 0 where
  pub subs : List String
  pub opened : List String
  pub stopped : List String

abbrev pub no_watches : Watched
no_watches = record { subs = []; opened = []; stopped = [] }

unfoldable pub kept : List String → List String → List String
kept want [] = []
kept want (dir ∷ subs) = let rest = kept want subs in if mem dir want then dir ∷ rest else rest

unfoldable pub dropped : List String → List String → List String
dropped want [] = []
dropped want (dir ∷ subs) =
    let rest = dropped want subs in if mem dir want then rest else dir ∷ rest

-- `works` says whether a subscription to a directory succeeds.
unfoldable pub subscribe_to : (String → Bool) → String → Watched → Watched
subscribe_to works dir w =
    if not (same dir "") && (not (mem dir w.subs) && works dir)
    then record w { subs = dir ∷ w.subs; opened = dir ∷ w.opened }
    else w

unfoldable pub subscribe_all : (String → Bool) → List String → Watched → Watched
unfolding subscribe_to
subscribe_all works [] w = w
subscribe_all works (dir ∷ want) w = subscribe_all works want (subscribe_to works dir w)

-- `none` is the nil map of the shutdown.
unfoldable pub refresh_watches : (String → Bool) → Option (List String) → Watched → Watched
unfolding kept dropped subscribe_all
refresh_watches works none w = record w { subs = []; stopped = w.subs ++ w.stopped }
refresh_watches works (some want) w =
    subscribe_all works want
      (record w { subs = kept want w.subs; stopped = dropped want w.subs ++ w.stopped })

abbrev pub is_active : Status → Bool
is_active Status.running = true
is_active Status.queued = true
is_active _ = false

unfoldable pub active_dirs : List JobRecord → List String
active_dirs [] = []
active_dirs (rec ∷ recs) =
    let rest = active_dirs recs in if is_active rec.status then rec.runs_dir ∷ rest else rest

pub record Poller : Type 0 where
  pub latest : DashboardState
  pub latest_json : Option Bytes
  pub last_hash : Bytes
  pub primed : Bool
  pub watched : Watched

abbrev pub zero_state : DashboardState
zero_state = record { generated_at = 0; state_dir = ""; counts = no_counts; jobs = [] }

abbrev pub new_poller : Poller
new_poller = record {
  latest = zero_state;
  latest_json = none;
  last_hash = [];
  primed = false;
  watched = no_watches;
}

-- One reading of the registry: `none` is an error. Each record comes with what is read for it.
pub record Turn : Type 0 where
  pub reading : Option (List Seen)
  pub now : ℕ
  pub works : String → Bool

-- The snapshot without its clock.
abbrev pub hashable : DashboardState → DashboardState
hashable st = record st { generated_at = 0 }

-- `encode` is encoding/json and `digest` is sha256.
module _ (encode : DashboardState → Bytes) (digest : Bytes → Bytes)
    (registry_dir state_dir : String) where
  abbrev pub record_of : Seen → JobRecord
  record_of s = s.rec

  -- The poller, and the frame that it broadcasts if the snapshot changed.
  unfoldable pub tick : Turn → Poller → Poller × Option Bytes
  unfolding refresh_watches active_dirs build_state
  tick t p = elim t.reading [
    | none ↦ (p, none)
    | some seen ↦
        let st = build_state seen state_dir t.now in
        let sum = digest (encode (hashable st)) in
        let want = registry_dir ∷ active_dirs (map record_of seen) in
        (
          record {
            latest = st;
            latest_json = some (encode st);
            last_hash = sum;
            primed = true;
            watched = refresh_watches t.works (some want) p.watched;
          },
          if not p.primed || not (alike sum p.last_hash) then some (encode st) else none,
        )
  ]

  -- The poller after a number of ticks, and the frames it has broadcast.
  unfoldable pub poll : List Turn → Poller → Poller × List Bytes
  unfolding tick
  poll [] p = (p, [])
  poll (t ∷ turns) p =
      let (p', frame) = tick t p in
      let (p'', frames) = poll turns p' in
      (p'', elim frame [ none ↦ frames | some msg ↦ msg ∷ frames ])

  -- Before the first snapshot, the zero state.
  unfoldable pub latest_json : Poller → Bytes
  latest_json p = elim p.latest_json [ none ↦ encode p.latest | some b ↦ b ]
