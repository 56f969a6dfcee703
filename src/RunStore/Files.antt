-- ===== src/RunStore/Files.antt =====
-- internal/runstore: runstore.go, list.go, lookup.go and authoring.go, the files of a directory of
-- runs. `decode` reads and decodes the file of a name in the directory; `none` is any error of it.
pub mod Order
use Prim.Native.String
use pi_mcp.Prelude.{
  ℕ, Bool, true, false, not, ◌&&◌, ◌||◌, String, Option, none, some, List, [], ◌∷◌, ◌==◌, ltb, same,
  if◌then◌else◌, length, take, map,
}
use pi_mcp.Prelude.Clock.{ℤ}
use pi_mcp.Prelude.Dict.{Dict}
use pi_mcp.Prelude.Text.{joined, codes, ends_with, after}
use pi_mcp.Prelude.Sort.{sort_by}
use pi_mcp.Model.{Status, Run, AuthoringInfo}
use pi_mcp.RunStore.Events.{model_histogram}

-- An entry of a directory, and what reading the directory yields.
pub record Entry : Type 0 where
  pub name : String
  pub is_dir : Bool

pub data Listing : Type 0 where
  missing unreadable : Listing
  entries : List Entry → Listing

-- `none` is the error of the first file, when there is no backup either.
unfoldable pub read_run : (String → Option Run) → String → Option Run
read_run decode name = elim (decode name) [
  | some run ↦ some run
  | none ↦ decode (joined name ".bak")
]

unfoldable pub has_json_suffix : String → Bool
has_json_suffix name =
    ends_with (codes name) (codes ".json")
    && not (ends_with (codes name) (codes ".bak"))
    && not (ends_with (codes name) (codes ".tmp"))

pub record ListItem : Type 0 where
  pub run_id : String
  pub workflow_name : String
  pub status : Status
  pub agent_count : ℕ
  pub by_model : Dict ℕ
  pub cost : Option ℕ
  pub duration_ms : Option ℤ
  pub completed_at : Option ℕ

pub record Scored : Type 0 where
  pub item : ListItem
  pub updated : ℕ

-- The zero time, which is 0, for a run without one.
abbrev pub updated_at : Run → ℕ
updated_at run = elim run.updated_at [ none ↦ 0 | some t ↦ t ]

unfoldable pub to_list_item : Run → ListItem
unfolding model_histogram
to_list_item run = record {
  run_id = run.run_id;
  workflow_name = run.workflow_name;
  status = run.status;
  agent_count = length run.agents;
  by_model = model_histogram run;
  cost = elim run.token_usage [ none ↦ none | some usage ↦ some usage.cost ];
  duration_ms = run.duration_ms;
  completed_at = run.completed_at;
}

-- The rows of the run files that can be read, in the directory's order.
unfoldable pub rows : (String → Option Run) → List Entry → List Scored
unfolding has_json_suffix read_run to_list_item
rows decode [] = []
rows decode (e ∷ es) =
    let rest = rows decode es in
    if e.is_dir || not (has_json_suffix e.name) then rest else elim (read_run decode e.name) [
      | none ↦ rest
      | some run ↦ record { item = to_list_item run; updated = updated_at run } ∷ rest
    ]

-- The later update first, then the greater id.
unfoldable pub newer : Scored → Scored → Bool
newer a b =
    if a.updated == b.updated
    then after (codes a.item.run_id) (codes b.item.run_id)
    else ltb b.updated a.updated

-- A limit of 0 stands for every value that is not positive.
unfoldable pub limited : ℕ → List Scored → List Scored
limited limit all = if ltb 0 limit && ltb limit (length all) then take limit all else all

unfoldable pub list_rows : (String → Option Run) → ℕ → List Entry → List Scored
unfolding rows limited newer
list_rows decode limit es = limited limit (sort_by newer (rows decode es))

-- `none` is the error of an unreadable directory; a missing one has no runs.
unfoldable pub list_runs : (String → Option Run) → ℕ → Listing → Option (List ListItem)
unfolding list_rows
list_runs decode limit missing = some []
list_runs decode limit unreadable = none
list_runs decode limit (entries es) =
    some (map (λ (row : Scored). row.item) (list_rows decode limit es))

first_run_id : (String → Option Run) → String → List Entry → Option String
first_run_id decode session_id [] = none
first_run_id decode session_id (e ∷ es) =
    let rest = first_run_id decode session_id es in
    if e.is_dir || not (has_json_suffix e.name) then rest else elim (read_run decode e.name) [
      | none ↦ rest
      | some run ↦
          if same run.session_id session_id && not (same session_id "")
          then some run.run_id
          else rest
    ]

unfoldable pub run_id_for_session : (String → Option Run) → String → Listing → Option String
unfolding first_run_id
run_id_for_session decode session_id (entries es) = first_run_id decode session_id es
run_id_for_session decode session_id _ = none

-- Whether a load finds no file, a run, or one that cannot be read.
pub data LoadResult : Type 0 where
  not_found failed : LoadResult
  loaded : Run → LoadResult

unfoldable pub load : (String → Bool) → (String → Option Run) → String → LoadResult
load exists decode run_id =
    if exists (joined run_id ".json")
    then elim (read_run decode (joined run_id ".json")) [ none ↦ failed | some run ↦ loaded run ]
    else not_found

-- `read_file` reads and decodes; `is_time` is the parser of RFC 3339 times.
unfoldable pub read_authoring :
    (String → Option AuthoringInfo) → (String → Bool) → String → Option AuthoringInfo
read_authoring read_file is_time job_id =
    if same job_id "" then none else elim (read_file (joined job_id ".authoring")) [
      | none ↦ none
      | some info ↦
          if same info.updated_at "" || not (is_time info.updated_at) then none else some info
    ]
