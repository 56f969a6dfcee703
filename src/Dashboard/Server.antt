-- ===== src/Dashboard/Server.antt =====
-- internal/dashboard/server.go: the pages and the detail of a job. The stream of events is the client
-- of Hub. The mux of net/http decides between the patterns; what it redirects is left out.
pub mod Snapshot
use Prim.Native.String
use Prim.Native.Char.{code}
use pi_mcp.Prelude.{
  ℕ, Bool, true, false, not, ◌&&◌, String, Option, none, some, List, [], ◌∷◌, ◌==◌, same,
  if◌then◌else◌,
}
use pi_mcp.Model.{Bytes, JobRecord, Run, AuthoringInfo}
use pi_mcp.Dashboard.State.{Seen}
use pi_mcp.Dashboard.Detail.{JobDetail, build_detail, run_or_snapshot}

-- `strings.CutPrefix`
unfoldable pub cut_prefix : String → String → Option String
cut_prefix Prim.Native.String.[] s = some s
cut_prefix (Prim.Native.String.◌∷◌ d p) Prim.Native.String.[] = none
cut_prefix (Prim.Native.String.◌∷◌ d p) (Prim.Native.String.◌∷◌ c s) =
    let rest = cut_prefix p s in if code c == code d then rest else none

-- `strings.TrimPrefix`
unfoldable pub trim_prefix : String → String → String
unfolding cut_prefix
trim_prefix p s = elim (cut_prefix p s) [ none ↦ s | some rest ↦ rest ]

-- A page of the web directory, or an answer of the API. Every one of them forbids a cache.
pub data Response : Type 0 where
  not_found unavailable encode_error index_page event_stream : Response
  asset : String → Response
  json : Bytes → Response

pub data Handler : Type 0 where
  index static state job events : Handler

-- The pattern that the mux picks for a path.
unfoldable pub handler_of : String → Handler
unfolding cut_prefix
handler_of path =
    if same path "/api/state"
    then state
    else if same path "/events"
    then events
    else elim (cut_prefix "/static/" path) [
      | some rest ↦ static
      | none ↦ elim (cut_prefix "/api/job/" path) [ some rest ↦ job | none ↦ index ]
    ]

unfoldable pub find_record : String → List JobRecord → Option JobRecord
find_record id [] = none
find_record id (rec ∷ recs) =
    let rest = find_record id recs in if same rec.job_id id then some rec else rest

-- What is read for a record: the run, for the summary and again for the detail, whether the worktree
-- is active, and the authoring.
pub record Look : Type 0 where
  pub run : Option Run
  pub again : Option Run
  pub active : Bool
  pub authoring : Option AuthoringInfo

-- The reading of a snapshot: `none` is an error.
unfoldable pub with_snapshot : Bool → Option Bytes → JobRecord → JobRecord
with_snapshot exists none rec = rec
with_snapshot exists (some []) rec = rec
with_snapshot exists (some (b ∷ s)) rec =
    if exists then rec else record rec { run_snapshot = b ∷ s }

module _ {Any : Type 0} (decode_any : Bytes → Option Any) (parse : Bytes → Option Run)
    (encode : JobDetail Any → Option Bytes) where
  unfoldable pub write_json : JobDetail Any → Response
  write_json d = elim (encode d) [ none ↦ encode_error | some b ↦ json b ]

  unfoldable pub detail_of : (JobRecord → Look) → ℕ → JobRecord → JobDetail Any
  unfolding build_detail run_or_snapshot
  detail_of look now rec =
      let l = look rec in
      build_detail decode_any parse
        (record {
          rec = rec;
          run = run_or_snapshot parse l.run rec.run_snapshot;
          active = l.active;
        })
        l.again l.authoring now

  -- `recs` is what the registry reads, `exists` whether a record's run file does, and `snapshot` what
  -- is read of the snapshot of an id.
  unfoldable pub handle_job :
      Option (List JobRecord)
      → (JobRecord → Bool)
      → (String → Option Bytes)
      → (JobRecord → Look)
      → ℕ
      → String
      → Response
  unfolding trim_prefix find_record with_snapshot detail_of write_json
  handle_job recs exists snapshot look now path =
      let id = trim_prefix "/api/job/" path in
      if same id "" then not_found else elim recs [
        | none ↦ unavailable
        | some rs ↦ elim (find_record id rs) [
          | none ↦ not_found
          | some rec ↦
              write_json (detail_of look now (with_snapshot (exists rec) (snapshot id) rec))
        ]
      ]

  -- `latest` is the poller's snapshot.
  unfoldable pub serve : (String → Response) → Bytes → String → Response
  unfolding handler_of trim_prefix
  serve handle latest path = elim (handler_of path) [
    | index ↦ if same path "/" then index_page else not_found
    | static ↦ asset (trim_prefix "/static/" path)
    | state ↦ json latest
    | job ↦ handle path
    | events ↦ event_stream
  ]
