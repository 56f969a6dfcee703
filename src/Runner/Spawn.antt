-- ===== src/Runner/Spawn.antt =====
-- internal/runner/runner.go: the start of a pi process and what it holds.
use pi_mcp.Prelude.{
  ℕ, zero, suc, ◌+◌, ◌-◌, ◌≡◌, refl, ap, Bool, true, String, Option, none, some, List, arith, same,
  if◌then◌else◌, if_cases,
}
use pi_mcp.Prelude.Clock.{ℤ, pos, negsuc}
use pi_mcp.Runner.{build_argv}

-- `stderr` says whether there is a writer for the errors of the child.
pub record SpawnConfig : Type 0 where
  pub prompt : String
  pub no_context_files : Bool
  pub cwd : String
  pub stderr : Bool

-- The command that starts: its arguments and its directory. Its input is the null device and it leads
-- a process group.
pub record Command : Type 0 where
  pub argv : List String
  pub dir : String

pub record Process : Type 0 where
  pub command : Command
  pub pid : Option ℕ
  pub holds_devnull : Bool

pub data SpawnError : Type 0 where
  empty_cwd nil_stderr no_devnull no_pipe no_start : SpawnError

-- What the system answers: whether the null device opens, whether there is a pipe, and the process id
-- of a command that starts.
pub record System : Type 0 where
  pub opens_devnull : Bool
  pub has_pipe : Bool
  pub starts : Command → Option ℕ

pub data Spawned : Type 0 where
  spawned : Process → Spawned
  not_spawned : SpawnError → Spawned

-- The state is the number of the null devices that are open.
unfoldable pub start_command : System → Command → ℕ → ℕ × Spawned
start_command sys c opened = elim (sys.starts c) [
  | none ↦ (opened - 1, not_spawned no_start)
  | some pid ↦ (opened, spawned (record { command = c; pid = some pid; holds_devnull = true }))
]

unfoldable pub spawn : System → SpawnConfig → ℕ → ℕ × Spawned
unfolding start_command build_argv
spawn sys cfg opened =
    if same cfg.cwd ""
    then (opened, not_spawned empty_cwd)
    else if cfg.stderr
    then (if sys.opens_devnull
        then (let now_opened = opened + 1 in
            if sys.has_pipe
            then start_command sys
                (record { argv = build_argv cfg.prompt cfg.no_context_files; dir = cfg.cwd })
                now_opened
            else (now_opened - 1, not_spawned no_pipe))
        else (opened, not_spawned no_devnull))
    else (opened, not_spawned nil_stderr)

-- Wait once the process has ended, with the error that it ended with.
unfoldable pub wait : Process → Option String → ℕ → ℕ × Option String
wait p err opened = if p.holds_devnull then (opened - 1, err) else (opened, err)

unfoldable pub pid_of : Process → ℕ
pid_of p = elim p.pid [ none ↦ 0 | some pid ↦ pid ]

-- The signal of a cancel goes to the group of the process, by its negated id.
unfoldable pub cancel_target : Process → Option ℤ
cancel_target p = elim p.pid [
  | none ↦ none
  | some zero ↦ some (pos 0)
  | some (suc n) ↦ some (negsuc n)
]

-- What a spawn leaves open, until the process has been waited for.
abbrev Balanced : SpawnConfig → ℕ → ℕ × Spawned → Type 0
Balanced cfg opened (opened', not_spawned e) = opened' ≡ opened
Balanced cfg opened (opened', spawned p) =
    (p.command.argv ≡ build_argv cfg.prompt cfg.no_context_files)
    × (p.command.dir ≡ cfg.cwd)
    × ((err : Option String) → wait p err opened' ≡ (opened, err))

start_command-Balanced :
    (sys : System) (cfg : SpawnConfig) (opened : ℕ)
    → Balanced cfg opened (
        start_command sys
          (record { argv = build_argv cfg.prompt cfg.no_context_files; dir = cfg.cwd })
          (opened + 1))
unfolding start_command wait
start_command-Balanced sys cfg opened =
    by_start
      (sys.starts (record { argv = build_argv cfg.prompt cfg.no_context_files; dir = cfg.cwd }))
  where
    by_start :
        (o : Option ℕ)
        → Balanced cfg opened (elim o [
          | none ↦ ((opened + 1) - 1, not_spawned no_start)
          | some pid ↦ (
            opened + 1,
            spawned (record {
              command = record { argv = build_argv cfg.prompt cfg.no_context_files; dir = cfg.cwd };
              pid = some pid;
              holds_devnull = true;
            }),
          )
        ])
    by_start none = omega arith
    by_start (some pid) = (
      refl,
      refl,
      λ err. let back : (opened + 1) - 1 ≡ opened = omega arith in ap (λ n. (n, err)) back,
    )

-- Where a spawn fails, as many null devices are open as before it. Where it succeeds, the command is
-- that of BuildArgv in the directory of the job, and after its Wait, however the process has ended, as
-- many are open as before, and the error is that of the process.
pub spawn-Balanced :
    (sys : System) (cfg : SpawnConfig) (opened : ℕ) → Balanced cfg opened (spawn sys cfg opened)
unfolding spawn
spawn-Balanced sys cfg opened =
    if_cases (Balanced cfg opened) (same cfg.cwd "") _ _ (λ _. refl)
      (λ _.
        if_cases (Balanced cfg opened) cfg.stderr _ _
          (λ _.
            if_cases (Balanced cfg opened) sys.opens_devnull _ _
              (λ _.
                if_cases (Balanced cfg opened) sys.has_pipe _ _
                  (λ _. start_command-Balanced sys cfg opened) (λ _. omega arith))
              (λ _. refl))
          (λ _. refl))
