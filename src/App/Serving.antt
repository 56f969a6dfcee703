-- ===== src/App/Serving.antt =====
-- internal/app/app.go: Run, with the calls, the goroutines' moves and the sweeps of the server in any
-- order, and the registry's own Reconcile.
use pi_mcp.Prelude.{
  ℕ, ◌≤◌, ◌≡◌, ◌⊎◌, refl, inl, inr, Bool, true, false, String, Option, none, some, List, [], ◌∷◌,
  arith, if◌then◌else◌, if_cases, Bool-cases, length,
}
use pi_mcp.Prelude.Dict.{count}
use pi_mcp.Jobs.Store.{all_jobs}
use pi_mcp.Jobs.Reconcile.{Pruned, reconcile}
use pi_mcp.Jobs.Registry.{Registry, Env, owner_of, flush}
use pi_mcp.Jobs.Registry.Cancel.{close}
use pi_mcp.Jobs.Registry.Steps.{Event, step}
use pi_mcp.Jobs.Registry.Steps.Invariant.{Inv, holder, is_nil}
use pi_mcp.Jobs.Registry.Steps.Safety.{IsFresh, step-Inv, Reachable, Reachable-Inv}
use pi_mcp.Jobs.Registry.Steps.Capacity.{is_running, count-running-le}

-- What a sweep reads: the clock, whether the table can be read, which claims the database answers, and
-- which processes are alive. A sweep is one step.
pub record Sweep : Type 0 where
  pub env : Env
  pub answers : String → Bool
  pub signal : ℕ → Bool

abbrev add_prunes : List Pruned → List (String × String) → List (String × String)
add_prunes [] done = done
add_prunes (p ∷ ps) done = add_prunes ps ((p.worktree_path, p.branch) ∷ done)

-- Reconcile of the registry: the number of the rows that are seen, or its error.
unfoldable pub sweep : Sweep → Registry → Registry × Option ℕ
sweep s r =
    if s.env.db
    then (let (store, prunes) = reconcile s.signal s.answers (owner_of s.env r) r.store in
        (
          record r { store = store; pruned = add_prunes prunes r.pruned },
          some (length (all_jobs r.store)),
        ))
    else (r, none)

pub data Activity : Type 0 where
  acts : Env → Event → Activity
  sweeps : Sweep → Activity

-- The error of a periodic sweep is logged, and the loop goes on.
unfoldable pub serve : List Activity → Registry → Registry
unfolding sweep
serve [] r = r
serve (acts env e ∷ later) r = serve later (step env e r)
serve (sweeps s ∷ later) r = serve later (sweep s r).0

pub data RunError : Type 0 where
  build_failed serve_failed : RunError

-- Run: the error of the first sweep is logged too, and the registry is closed at the end, whether or
-- not the service ended without an error.
unfoldable pub run_app :
    Option Registry → Sweep → List Activity → Env → Bool → Option Registry × Option RunError
unfolding sweep serve close
run_app none first activities env served = (none, some build_failed)
run_app (some r) first activities env served = (
  some (close env (serve activities (sweep first r).0)),
  if served then none else some serve_failed,
)

-- Every submit has an id that the registry does not know at that time.
abbrev pub AllFresh : List Activity → Registry → Type 0
AllFresh [] r = Unit {0}
AllFresh (acts env e ∷ later) r = IsFresh e r × AllFresh later (step env e r)
AllFresh (sweeps s ∷ later) r = AllFresh later (sweep s r).0

sweep-Inv : (s : Sweep) (r : Registry) → Inv r → Inv (sweep s r).0
unfolding sweep
sweep-Inv s r v =
    if_cases (λ (p : Registry × Option ℕ). Inv p.0) s.env.db _ _
      (λ _. record {
        sound = v.sound;
        named = v.named;
        nodup = v.nodup;
        counted = v.counted;
        capped = v.capped;
        lined_up = v.lined_up;
        unique = v.unique;
        full = v.full;
        calm = v.calm;
      })
      (λ _. v)

serve-Inv :
    (activities : List Activity) (r : Registry)
    → AllFresh activities r
    → Inv r
    → Inv (serve activities r)
unfolding serve
serve-Inv [] r f v = v
serve-Inv (acts env e ∷ later) r (new, f) v =
    serve-Inv later (step env e r) f (step-Inv env e r new v)
serve-Inv (sweeps s ∷ later) r f v = serve-Inv later (sweep s r).0 f (sweep-Inv s r v)

-- Whatever the server does from a registry that it can reach, calls, moves of the goroutines and
-- sweeps in any order, with fresh ids for its submits: at most `cap` jobs have the status running, the
-- tokens in the slot channel are the jobs that hold one, no done channel is closed twice, and while
-- the registry is open and a job waits in the queue, jobs hold all the slots.
pub serve_keeps_slots :
    (activities : List Activity) (r : Registry)
    → Reachable r
    → AllFresh activities r
    → let r' = serve activities r in
      (count is_running r'.jobs ≤ r'.cap)
      × (r'.slots ≡ count holder r'.jobs)
      × (r'.panicked ≡ false)
      × ((r'.closed ≡ true) ⊎ (is_nil r'.queue ≡ true) ⊎ (count holder r'.jobs ≡ r'.cap))
serve_keeps_slots activities r w f =
    let r' = serve activities r in
    let v = serve-Inv activities r f (Reachable-Inv w) in
    (
      omega (arith, v.counted, v.capped, count-running-le r'.jobs v.nodup v.sound),
      v.counted,
      v.calm,
      elim (Bool-cases r'.closed) [
        | inl c ↦ inl c
        | inr open_ ↦ inr (elim (Bool-cases (is_nil r'.queue)) [
          | inl q ↦ inl q
          | inr waits ↦ inr (ground (arith, v.counted, v.full open_ waits))
        ])
      ],
    )

close-closed : (env : Env) (r : Registry) → (close env r).closed ≡ true
unfolding close flush
close-closed env r = ground arith

-- However the run of the server ends, its registry is closed, if there is one.
pub run_app-closed :
    (r : Registry) (first : Sweep) (activities : List Activity) (env : Env) (served : Bool)
    → (r' : Registry) × ((run_app (some r) first activities env served).0 ≡ some r')
      × (r'.closed ≡ true)
unfolding run_app
run_app-closed r first activities env served =
    let r' = serve activities (sweep first r).0 in (close env r', refl, close-closed env r')
