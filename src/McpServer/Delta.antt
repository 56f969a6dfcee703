-- ===== src/McpServer/Delta.antt =====
-- internal/mcpserver/delta.go: what each job has already been told.
pub mod Once
use pi_mcp.Prelude.{
  ℕ, Bool, true, false, ◌&&◌, ◌||◌, not, String, Option, none, some, List, [], ◌∷◌, ltb, leb,
  if◌then◌else◌,
}
use pi_mcp.Prelude.Dict.{Dict, lookup, insert}

-- `warned` holds the last activity at the time of the last warning.
pub record Tracker : Type 0 where
  pub delivered : Dict ℕ
  pub warned : Dict ℕ

abbrev pub new_tracker : Tracker
new_tracker = record { delivered = []; warned = [] }

-- `d.delivered[key]`
unfoldable pub position : String → Tracker → ℕ
position key d = elim (lookup key d.delivered) [ some n ↦ n | none ↦ 0 ]

unfoldable pub take : String → ℕ → Bool → Tracker → ℕ × Tracker
unfolding position
take key journal_len from_start d =
    let from = position key d in
    (
      if from_start || ltb journal_len from then 0 else from,
      record d { delivered = insert key journal_len d.delivered },
    )

-- `lastActivity.After(prev)`, for a key that has warned.
unfoldable pub is_quiet : String → ℕ → Tracker → Bool
is_quiet key last_activity d = elim (lookup key d.warned) [
  | some prev ↦ not (ltb prev last_activity)
  | none ↦ false
]

unfoldable pub should_warn : String → ℕ → Tracker → Bool × Tracker
unfolding is_quiet
should_warn key last_activity d =
    if is_quiet key last_activity d
    then (false, d)
    else (true, record d { warned = insert key last_activity d.warned })
