-- ===== src/Tests/Worktrees.antt =====
-- A repository with one worktree, at the theorems about worktrees and the adapter.
use Prim.Native.String
use pi_mcp.Prelude.{
  ap, ◌&&◌, ◌≡◌, refl, Bool, true, false, String, none, some, List, [], ◌∷◌, same, if◌then◌else◌,
  string_dec,
}
use native.Mathlib.Decide.{ℕ_discrete}
use pi_mcp.Prelude.Dict.{insert, lookup}
use pi_mcp.Model.{write}
use pi_mcp.Worktree.{
  Os, exit_code, Handle, ok, create, prune, changed_files, new_manager, has_branch, dirty_warning,
  add_worktree, create_at, trim_space,
}
use pi_mcp.Worktree.Names.{terminated_all, changed_files-terminated_all}
use pi_mcp.Worktree.Create.{
  ReadsOnly, ask_head, ask_ref, ask_status, ask_common, After, create-After,
}
use pi_mcp.Worktree.Prune.{Cleans, prune_twice}
use pi_mcp.JobsAdapter.{JobSpec, Adapter, refused, registry_error, submit}
use pi_mcp.JobsAdapter.Tree.{Node, file, special, folder, no_nodes, cons, scan_worktree_activity}
use pi_mcp.JobsAdapter.Submit.{AfterSubmit, handle_of, submit-AfterSubmit, submit_leaves_worktree}
use pi_mcp.Jobs.Registry.{new_registry}
use pi_mcp.Tests.Fixtures.{call_at, env_at, failing_env, opened, opened-Reachable}

abbrev pub is_show_ref : List String → Bool
is_show_ref [] = false
is_show_ref (c ∷ args) = same c "show-ref"

abbrev pub adds : List String → Bool
adds (c ∷ d ∷ args) = same c "worktree" && same d "add"
adds _ = false

-- The state says whether the worktree is there. Git fails where it is not, but for a creation.
abbrev pub small_os : Os Bool
small_os = record {
  git = λ dir args w. (
    if adds args then true else w,
    if is_show_ref args
        then record { output = ""; failure = some (exit_code 1) }
        else record { output = "true"; failure = none },
  );
  present = λ path w. w;
  mkdir_all = λ path w. (w, true);
  remove_all = λ path w. false;
  join = λ s t. Prim.Native.String.◌++◌ s (Prim.Native.String.◌++◌ "/" t);
  parent = λ s. s;
  is_abs = λ s. true;
}

small_os-ReadsOnly : ReadsOnly small_os
unfolding string_dec
small_os-ReadsOnly dir _ w ask_head = refl
small_os-ReadsOnly dir _ w (ask_ref name) = refl
small_os-ReadsOnly dir _ w ask_status = refl
small_os-ReadsOnly dir _ w ask_common = refl

create-After_example :
    After small_os "/base" "/repo" "j1" false (create small_os "/base" "/repo" "j1" false)
create-After_example = create-After small_os small_os-ReadsOnly "/base" "/repo" "j1" false

abbrev made_handle : Handle
made_handle = record {
  job_id = "j1";
  path = "/base/job-j1";
  branch = "pi-mcp/job-j1";
  base_commit = "true";
  dirty_warning =
      "HEAD has uncommitted/untracked changes; worktree branched from committed HEAD only";
}

created : create small_os "/base" "/repo" "j1" false ≡ (true, ok made_handle)
unfolding create create_at has_branch dirty_warning add_worktree trim_space string_dec ℕ_discrete
created = refl

-- Git fails in a directory that is not there.
abbrev failing_os : Os Bool
failing_os = record small_os {
  git = λ dir args w.
      (w, record { output = "/repo/.git"; failure = if w then none else some (exit_code 128) });
}

failing_os-Cleans : Cleans failing_os
failing_os-Cleans = record {
  removes = λ path w. refl;
  stays_gone = λ dir path args w cleanup gone. gone;
  fails_in_missing =
      λ path args w gone. (exit_code 128, ap (λ b. if b then none else some (exit_code 128)) gone);
}

prune_twice_example :
    let w' = (prune failing_os "/base/job-j1" "pi-mcp/job-j1" true).0 in
    (failing_os.present "/base/job-j1" w' ≡ false)
    × (prune failing_os "/base/job-j1" "pi-mcp/job-j1" w' ≡ (w', none))
prune_twice_example =
    prune_twice failing_os (λ dir args w q. refl) failing_os-Cleans "/base/job-j1" "pi-mcp/job-j1"
      true

changed_files-terminated_all_example :
    changed_files (terminated_all ("a b" ∷ "c\n" ∷ [])) ≡ "a b" ∷ "c\n" ∷ []
unfolding string_dec
changed_files-terminated_all_example =
    changed_files-terminated_all ("a b" ∷ "c\n" ∷ [])
      ((refl, (refl, (refl, (refl, tt)))), ((refl, (refl, (refl, tt))), tt))

abbrev pub adapter : Adapter Bool
adapter = record { reg = opened; handles = []; world = false }

abbrev write_job : JobSpec
write_job = record { mode = write; cwd = "/repo"; task = "fix"; context = "" }

submit-AfterSubmit_example :
    AfterSubmit small_os "/base" "j1" write_job adapter
      (submit small_os "/base" (call_at (env_at 1)) "j1" write_job adapter)
unfolding lookup new_registry
submit-AfterSubmit_example =
    submit-AfterSubmit small_os "/base" (call_at (env_at 1)) "j1" write_job adapter opened-Reachable
      refl refl

inside_repo : new_manager small_os "/repo" false ≡ (false, none)
unfolding new_manager trim_space string_dec ℕ_discrete
inside_repo = refl

submit_leaves_worktree_example :
    submit small_os "/base" (call_at failing_env) "j1" write_job adapter ≡ (
      record adapter {
        handles = insert "j1" (handle_of small_os "/base" write_job made_handle) [];
        world = true;
      },
      refused registry_error,
    )
unfolding lookup new_registry
submit_leaves_worktree_example =
    submit_leaves_worktree small_os "/base" (call_at failing_env) "j1" write_job adapter
      opened-Reachable refl made_handle false true refl inside_repo created refl

abbrev tree : Node
tree = folder "job-j1" (
    cons (file ".git" (some 90)) (
      cons
        (folder "src" (cons (file "main.go" (some 20)) (cons (special "link" (some 80)) no_nodes)))
        (cons (file "README" (some 10)) no_nodes)))

scan_of_tree : scan_worktree_activity (some tree) ≡ (2, 20)
unfolding scan_worktree_activity string_dec
scan_of_tree = refl
