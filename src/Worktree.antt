-- ===== src/Worktree.antt =====
-- internal/worktree/worktree.go: the worktrees of write jobs.
pub mod Names
pub mod Create
pub mod Prune
use Prim.Native.String
use pi_mcp.Prelude.{
  ℕ, Bool, true, false, not, ◌&&◌, ◌||◌, String, Option, none, some, List, [], ◌∷◌, ◌==◌, leb, ltb,
  same, if◌then◌else◌,
}
use Prim.Native.Char.{code}
use pi_mcp.Prelude.Text.{joined, is_space}
use pi_mcp.Config.{worktree_branch_prefix, worktree_subdir}
use pi_mcp.Model.{WriteInfo}

-- How a command of git fails: with an exit code, or without one, as when it cannot start or its
-- context is cancelled.
pub data Failure : Type 0 where
  exit_code : ℕ → Failure
  no_exit : Failure

pub record Outcome : Type 0 where
  pub output : String
  pub failure : Option Failure

-- The operating system, with git, and the calls of path/filepath. `World` is the state of both.
-- `git` has the directory of `-C` and the arguments; `present` says whether `os.Stat` succeeds.
pub record Os (World : Type 0) : Type 0 where
  pub git : String → List String → World → World × Outcome
  pub present : String → World → Bool
  pub mkdir_all : String → World → World × Bool
  pub remove_all : String → World → World
  pub join : String → String → String
  pub parent : String → String
  pub is_abs : String → Bool

unfoldable pub trim_front : String → String
trim_front Prim.Native.String.[] = Prim.Native.String.[]
trim_front (Prim.Native.String.◌∷◌ c s) =
    let rest = trim_front s in if is_space (code c) then rest else Prim.Native.String.◌∷◌ c s

-- Without the characters at the end that pass a test.
unfoldable pub trim_end : (ℕ → Bool) → String → String
trim_end p Prim.Native.String.[] = Prim.Native.String.[]
trim_end p (Prim.Native.String.◌∷◌ c s) =
    let rest = trim_end p s in
    if p (code c) && same rest "" then Prim.Native.String.[] else Prim.Native.String.◌∷◌ c rest

-- `strings.TrimSpace`
unfoldable pub trim_space : String → String
unfolding trim_front trim_end
trim_space s = trim_end is_space (trim_front s)

-- `strings.Split(s, "\x00")`: the part up to the first NUL, and the parts behind it.
unfoldable pub split_nul : String → String × List String
split_nul Prim.Native.String.[] = (Prim.Native.String.[], [])
split_nul (Prim.Native.String.◌∷◌ c s) =
    let (head, rest) = split_nul s in
    if code c == 0
    then (Prim.Native.String.[], head ∷ rest)
    else (Prim.Native.String.◌∷◌ c head, rest)

unfoldable pub not_empty : List String → List String
not_empty [] = []
not_empty (f ∷ fs) = let rest = not_empty fs in if same f "" then rest else f ∷ rest

-- The loop over the names of Diff.
unfoldable pub changed_files : String → List String
unfolding split_nul not_empty
changed_files names = let (head, rest) = split_nul names in not_empty (head ∷ rest)

pub record Handle : Type 0 where
  pub job_id : String
  pub path : String
  pub branch : String
  pub base_commit : String
  pub dirty_warning : String

-- The errors, without the texts that wrap them.
pub data Error : Type 0 where
  not_a_git_repo rev_parse_failed mkdir_failed path_exists branch_exists : Error
  show_ref_failed worktree_add_failed diff_failed worktree_prune_failed : Error

pub data Answer (A : Type 0) : Type 0 where
  ok : A → Answer A
  failed : Error → Answer A

abbrev pub branch_for : String → String
branch_for job_id = joined worktree_branch_prefix job_id

abbrev pub dirty_text : String
dirty_text = "HEAD has uncommitted/untracked changes; worktree branched from committed HEAD only"

module _ {World : Type 0} (os : Os World) where
  -- The directory of all worktrees, from two variables of the environment and the directory of
  -- temporary files.
  unfoldable pub resolve_base_dir : String → String → String → String
  resolve_base_dir xdg_state_home home temp_dir =
      if not (same xdg_state_home "")
      then os.join xdg_state_home worktree_subdir
      else if not (same home "")
      then os.join (os.join (os.join home ".local") "state") worktree_subdir
      else os.join temp_dir worktree_subdir

  -- `none` for success.
  unfoldable pub new_manager : String → World → World × Option Error
  unfolding trim_space
  new_manager cwd w =
      let (w', out) = os.git cwd ("rev-parse" ∷ "--is-inside-work-tree" ∷ []) w in
      (
        w',
        elim out.failure [
          | some f ↦ some not_a_git_repo
          | none ↦ if same (trim_space out.output) "true" then none else some not_a_git_repo
        ],
      )

  unfoldable pub has_branch : String → String → World → World × Answer Bool
  has_branch repo branch w =
      let (w', out) =
        os.git repo ("show-ref" ∷ "--verify" ∷ "--quiet" ∷ joined "refs/heads/" branch ∷ []) w in
      (
        w',
        elim out.failure [
          | none ↦ ok true
          | some f ↦ elim f [
            | exit_code n ↦ if n == 1 then ok false else failed show_ref_failed
            | no_exit ↦ failed show_ref_failed
          ]
        ],
      )

  unfoldable pub dirty_warning : String → World → World × String
  unfolding trim_space
  dirty_warning repo w =
      let (w', out) = os.git repo ("status" ∷ "--porcelain" ∷ []) w in
      (
        w',
        elim out.failure [
          | some f ↦ ""
          | none ↦ if same (trim_space out.output) "" then "" else dirty_text
        ],
      )

  -- The last command of Create.
  unfoldable pub add_worktree :
      String → String → String → String → String → World → World × Answer Handle
  add_worktree repo job_id path head warning w =
      let branch = branch_for job_id in
      let (w', out) = os.git repo ("worktree" ∷ "add" ∷ "-b" ∷ branch ∷ path ∷ "HEAD" ∷ []) w in
      (
        w',
        elim out.failure [
          | some f ↦ failed worktree_add_failed
          | none ↦ ok (record {
            job_id = job_id;
            path = path;
            branch = branch;
            base_commit = head;
            dirty_warning = warning;
          })
        ],
      )

  -- The branch is looked for once the path is known to be free.
  unfoldable pub create_at : String → String → String → String → World → World × Answer Handle
  unfolding has_branch dirty_warning add_worktree
  create_at repo job_id path head w =
      if os.present path w
      then (w, failed path_exists)
      else let (w', found) = has_branch repo (branch_for job_id) w in
        elim found [
          | failed e ↦ (w', failed e)
          | ok b ↦
              if b
              then (w', failed branch_exists)
              else add_worktree repo job_id path head (dirty_warning repo w').1
                  (dirty_warning repo w').0
        ]

  unfoldable pub create : String → String → String → World → World × Answer Handle
  unfolding trim_space create_at
  create base repo job_id w =
      let (w1, out) = os.git repo ("rev-parse" ∷ "HEAD" ∷ []) w in
      elim out.failure [
        | some f ↦ (w1, failed rev_parse_failed)
        | none ↦
            let (w2, made) = os.mkdir_all base w1 in
            if made
            then create_at repo job_id (os.join base (joined "job-" job_id)) (trim_space out.output)
                w2
            else (w2, failed mkdir_failed)
      ]

  abbrev pub is_newline : ℕ → Bool
  is_newline c = c == 10

  unfoldable pub diff : Handle → World → World × Answer (String × List String)
  unfolding trim_end changed_files
  diff h w =
      let (w1, stat) = os.git h.path ("diff" ∷ "--stat" ∷ h.base_commit ∷ []) w in
      elim stat.failure [
        | some f ↦ (w1, failed diff_failed)
        | none ↦
            let (w2, names) =
              os.git h.path ("diff" ∷ "--name-only" ∷ "-z" ∷ h.base_commit ∷ []) w1 in
            (
              w2,
              elim names.failure [
                | some f ↦ failed diff_failed
                | none ↦ ok (trim_end is_newline stat.output, changed_files names.output)
              ],
            )
      ]

  unfoldable pub write_info : Handle → World → World × Answer WriteInfo
  unfolding diff
  write_info h w =
      let (w', d) = diff h w in
      (
        w',
        elim d [
          | failed e ↦ failed e
          | ok (stat, files) ↦ ok (record {
            branch = h.branch;
            worktree_path = h.path;
            diff_stat = stat;
            files_changed = files;
          })
        ],
      )

  -- An empty text for a repository that cannot be resolved.
  unfoldable pub resolve_common_repo : String → World → World × String
  unfolding trim_space
  resolve_common_repo path w =
      let (w', out) = os.git path ("rev-parse" ∷ "--git-common-dir" ∷ []) w in
      let common = trim_space out.output in
      (
        w',
        elim out.failure [
          | some f ↦ ""
          | none ↦
              if same common ""
              then ""
              else os.parent (if os.is_abs common then common else os.join path common)
        ],
      )

  -- The directory, if it is still there.
  unfoldable pub clear : String → World → World
  clear path w = if os.present path w then os.remove_all path w else w

  unfoldable pub prune : String → String → World → World × Option Error
  unfolding resolve_common_repo clear
  prune path branch w =
      let (w1, repo) = resolve_common_repo path w in
      if same repo ""
      then (clear path w1, none)
      else let w2 = clear path (os.git repo ("worktree" ∷ "remove" ∷ "--force" ∷ path ∷ []) w1).0 in
        let w3 = (os.git repo ("branch" ∷ "-D" ∷ branch ∷ []) w2).0 in
        let (w4, out) = os.git repo ("worktree" ∷ "prune" ∷ []) w3 in
        (w4, elim out.failure [ none ↦ none | some f ↦ some worktree_prune_failed ])
