-- ===== src/App.antt =====
-- internal/app/app.go, and the paths and the cap of internal/config/config.go that it starts from.
pub mod Serving
use pi_mcp.Prelude.{
  ℕ, zero, suc, ◌*◌, ◌≡◌, not, String, Option, none, some, List, [], ◌∷◌, arith, same,
  if◌then◌else◌,
}
use pi_mcp.Prelude.Clock.{ℤ, pos, negsuc, minute}
use pi_mcp.Config.{default_concurrency_cap, worktree_subdir}
use pi_mcp.Jobs.Store.{Store}
use pi_mcp.Jobs.Store.Opening.{Disk, Opening, open_store}
use pi_mcp.Jobs.Registry.{Registry, new_registry}
use pi_mcp.Worktree.{Os, resolve_base_dir}

abbrev pub wait_cap_default : ℕ
wait_cap_default = 5 * minute

abbrev positive_or : ℕ → ℤ → ℕ
positive_or d (pos zero) = d
positive_or d (pos (suc n)) = suc n
positive_or d (negsuc n) = d

-- `parse` is time.ParseDuration on the variable, which is empty where it is not set.
unfoldable pub wait_cap : (String → Option ℤ) → String → ℕ
wait_cap parse v =
    if same v ""
    then wait_cap_default
    else elim (parse v) [ none ↦ wait_cap_default | some d ↦ positive_or wait_cap_default d ]

-- What a periodic sweep does with the registry's table; an error of one sweep is only logged.
unfoldable pub reconcile_loop : List (Store → Option Store) → Store → Store
reconcile_loop [] st = st
reconcile_loop (sweep ∷ sweeps) st =
    reconcile_loop sweeps (elim (sweep st) [ none ↦ st | some st' ↦ st' ])

module _ {World : Type 0} (os : Os World) where
  -- The two variables of the environment and the directory of temporary files.
  unfoldable pub state_dir : String → String → String → String
  state_dir xdg_state_home home temp_dir =
      if not (same xdg_state_home "")
      then xdg_state_home
      else if not (same home "")
      then os.join (os.join home ".local") "state"
      else temp_dir

  unfoldable pub registry_path_for : String → String
  registry_path_for dir = os.join (os.join dir "pi-mcp") "registry.db"

  -- The file of the registry and the root of the worktrees; `none` is the error of making the root.
  unfoldable pub state_paths : String → String → String → World → World × Option (String × String)
  unfolding state_dir registry_path_for
  state_paths xdg_state_home home temp_dir w =
      let base = state_dir xdg_state_home home temp_dir in
      let root = os.join base worktree_subdir in
      let (w', made) = os.mkdir_all root w in
      (w', if made then some (registry_path_for base, root) else none)

  -- The root that the server makes is the directory in which the worktrees are made.
  pub state_dir-resolve_base_dir :
      (xdg_state_home home temp_dir : String)
      → os.join (state_dir xdg_state_home home temp_dir) worktree_subdir
        ≡ resolve_base_dir os xdg_state_home home temp_dir
  unfolding state_dir resolve_base_dir
  state_dir-resolve_base_dir xdg_state_home home temp_dir = ground arith

  -- The registry of the server over its table, or the error of the paths or of the database.
  unfoldable pub build_registry :
      String
      → String
      → String
      → ℤ
      → String
      → Opening
      → Disk
      → World
      → World × Disk × Option Registry
  unfolding state_paths new_registry open_store
  build_registry xdg_state_home home temp_dir pid started_at o d w =
      let (w', paths) = state_paths xdg_state_home home temp_dir w in
      elim paths [
        | none ↦ (w', d, none)
        | some p ↦
            let (d', opened) = open_store o d in
            (
              w',
              d',
              if opened
                  then some (new_registry default_concurrency_cap pid started_at d'.rows)
                  else none,
            )
      ]
