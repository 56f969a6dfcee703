-- ===== src/Jobs/Reconcile/Sweep.antt =====
-- What a sweep changes and prunes, row by row.
use mathlib.Core.Option
use mathlib.Core.List.{append-nil, append_assoc}
use pi_mcp.Prelude.{
  ℕ, ◌≡◌, refl, sym, ap, ◌∙◌, Bool, String, Option, none, some, List, [], ◌∷◌, ◌++◌, arith, not,
  ◌&&◌, same, if◌then◌else◌,
}
use pi_mcp.Prelude.Dict.{lookup, lookup-insert}
use pi_mcp.Config.{err_server_restarted}
use pi_mcp.Model.{failed}
use pi_mcp.LiveStatus.{is_terminal}
use pi_mcp.Jobs.Store.{Row, Store, Owner, all_jobs, claim_terminal, claimed}
use pi_mcp.Jobs.Reconcile.{pid_alive, Pruned, prune_of, sweep_row, sweep_rows, reconcile}

-- A table: the key of a row is the job's id, and no key stands twice.
abbrev pub IsTable : Store → Type 0
IsTable [] = Unit {0}
IsTable ((k, row) ∷ st) = (row.job.job_id ≡ k) × (lookup k st ≡ none) × IsTable st

-- A job that the sweep takes: it is not terminal, its server is dead, and the database answers.
abbrev pub is_orphan : (ℕ → Bool) → (String → Bool) → Row → Bool
is_orphan signal db row =
    not (is_terminal row.job.status) && not (pid_alive signal row.owner_pid) && db row.job.job_id

abbrev pub swept : (ℕ → Bool) → (String → Bool) → Owner → Row → Row
swept signal db o row =
    if is_orphan signal db row then claimed o failed err_server_restarted row else row

-- The prunes of the orphans of a table, in the table's order.
abbrev pub orphan_prunes : (ℕ → Bool) → (String → Bool) → Store → List Pruned
orphan_prunes signal db [] = []
orphan_prunes signal db ((k, row) ∷ st) =
    (if is_orphan signal db row then prune_of signal row.job else []) ++ orphan_prunes signal db st

module _ (signal : ℕ → Bool) (db : String → Bool) (o : Owner) where
  sweep_row_lem :
      (k : String) (row : Row) (st : Store)
      → lookup row.job.job_id st ≡ some row
      → let (st', more) = sweep_row signal db o row.job row.owner_pid st in
        (lookup k st'
          ≡ (if same row.job.job_id k then some (swept signal db o row) else lookup k st))
        × (more ≡ (if is_orphan signal db row then prune_of signal row.job else []))
  unfolding sweep_row claim_terminal
  sweep_row_lem k row st e = grind (arith, lookup-insert)

  -- The rows yet to come stand in the current table as they were read.
  abbrev Agrees : Store → Store → Type 0
  Agrees [] st = Unit {0}
  Agrees ((k, row) ∷ es) st =
      (row.job.job_id ≡ k) × (lookup k es ≡ none) × (lookup k st ≡ some row) × Agrees es st

  Agrees-sweep_row :
      (es : Store) (row : Row) (st : Store)
      → lookup row.job.job_id es ≡ none
      → lookup row.job.job_id st ≡ some row
      → Agrees es st
      → Agrees es (sweep_row signal db o row.job row.owner_pid st).0
  unfolding lookup
  Agrees-sweep_row [] row st fresh e a = tt
  Agrees-sweep_row ((k, r) ∷ es) row st fresh e (key, once, here, rest) = (
    key,
    once,
    ground (arith, sweep_row_lem k row st),
    Agrees-sweep_row es row st (ground arith) e rest,
  )

  abbrev Swept : Store → Store → Option Row → String → Type 0
  Swept es st found k =
      found ≡ elim (lookup k es) [ none ↦ lookup k st | some row ↦ some (swept signal db o row) ]

  sweep_rows_lem :
      (es st : Store) (prunes : List Pruned)
      → Agrees es st
      → let (st', all) = sweep_rows signal db o (all_jobs es) st prunes in
        ((k : String) → Swept es st (lookup k st') k) × (all ≡ prunes ++ orphan_prunes signal db es)
  unfolding sweep_rows all_jobs lookup
  sweep_rows_lem [] st prunes a = (λ k. refl, sym (append-nil prunes))
  sweep_rows_lem ((k, row) ∷ es) st prunes (key, once, here, rest) =
      let (st', more) = sweep_row signal db o row.job row.owner_pid st in
      let found : lookup row.job.job_id st ≡ some row = ap (λ j. lookup j st) key ∙ here in
      let agrees : Agrees es st' = Agrees-sweep_row es row st (rw key once) found rest in
      let ih = sweep_rows_lem es st' (prunes ++ more) agrees in
      let step = sweep_row_lem k row st found in
      (
        λ j. ground (arith, ih.0 j, sweep_row_lem j row st),
        ih.1
            ∙ append_assoc prunes more _
            ∙ ap (λ ps. prunes ++ (ps ++ orphan_prunes signal db es)) step.1,
      )

  Agrees-IsTable :
      (es st : Store)
      → IsTable es
      → ((k : String) (row : Row) → lookup k es ≡ some row → lookup k st ≡ some row)
      → Agrees es st
  unfolding lookup
  Agrees-IsTable [] st t within = tt
  Agrees-IsTable ((k, row) ∷ es) st (key, once, t) within = (
    key,
    once,
    within k row (ground arith),
    Agrees-IsTable es st t (λ j r e. within j r (ground arith)),
  )

  -- In a table whose rows stand under their jobs' ids, once each, a sweep takes exactly the
  -- orphans: each becomes failed and the sweeping server's, and every other row stays as it is.
  pub lookup-reconcile :
      (k : String) (st : Store)
      → IsTable st
      → lookup k (reconcile signal db o st).0 ≡ Option.map (swept signal db o) (lookup k st)
  unfolding reconcile
  lookup-reconcile k st t =
      (sweep_rows_lem st st [] (Agrees-IsTable st st t (λ j r e. e))).0 k ∙ ground arith

  -- In a table whose rows stand under their jobs' ids, once each, a sweep prunes for the orphans
  -- alone: once for each one in write mode that has a worktree and whose own process is dead.
  pub prunes-reconcile :
      (st : Store) → IsTable st → (reconcile signal db o st).1 ≡ orphan_prunes signal db st
  unfolding reconcile
  prunes-reconcile st t = (sweep_rows_lem st st [] (Agrees-IsTable st st t (λ j r e. e))).1
