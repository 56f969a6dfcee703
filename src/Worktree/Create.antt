-- ===== src/Worktree/Create.antt =====
-- Create on every branch: what it finds, what it leaves behind.
use pi_mcp.Prelude.{
  ◌≡◌, refl, sym, ◌∙◌, ◌⊎◌, inl, inr, Bool, true, false, String, Option, none, some, List, [], ◌∷◌,
  if◌then◌else◌, if_cases, subst,
}
use pi_mcp.Prelude.Text.{joined}
use pi_mcp.Worktree.{
  Os, Failure, Handle, Answer, ok, failed, worktree_add_failed, branch_exists, rev_parse_failed,
  mkdir_failed, branch_for, has_branch, dirty_warning, add_worktree, create_at, create, trim_space,
}

module _ {World : Type 0} (os : Os World) where
  -- The queries of git, which leave the repository alone.
  pub data IsQuery : List String → Type 0 where
    ask_head : IsQuery ("rev-parse" ∷ "HEAD" ∷ [])
    ask_ref : (name : String) → IsQuery ("show-ref" ∷ "--verify" ∷ "--quiet" ∷ name ∷ [])
    ask_status : IsQuery ("status" ∷ "--porcelain" ∷ [])
    ask_common : IsQuery ("rev-parse" ∷ "--git-common-dir" ∷ [])

  abbrev pub ReadsOnly : Type 0
  ReadsOnly =
      (dir : String) (args : List String) (w : World) → IsQuery args → (os.git dir args w).0 ≡ w

  abbrev pub failed_with : Option Failure → Bool
  failed_with none = false
  failed_with (some f) = true

  -- What a Create has done, from the repository, by how it ended. A failure before the last command
  -- leaves the state as it was or has at most made the base directory; success means that the path
  -- and the branch were free.
  abbrev pub After : String → String → String → World → World × Answer Handle → Type 0
  After base repo job_id w (w', failed e) =
      (w' ≡ w) ⊎ ((w' ≡ (os.mkdir_all base w).0) ⊎ (e ≡ worktree_add_failed))
  After base repo job_id w (w', ok h) =
      let made = (os.mkdir_all base w).0 in
      (h.path ≡ os.join base (joined "job-" job_id))
      × (h.branch ≡ branch_for job_id)
      × (os.present h.path made ≡ false)
      × ((has_branch os repo h.branch made).1 ≡ ok false)
      × (w' ≡ (os.git repo ("worktree" ∷ "add" ∷ "-b" ∷ h.branch ∷ h.path ∷ "HEAD" ∷ []) made).0)

  module _ (reads_only : ReadsOnly) (base repo job_id : String) where
    add_worktree-After :
        (path head warning : String) (w : World)
        → path ≡ os.join base (joined "job-" job_id)
        → os.present path (os.mkdir_all base w).0 ≡ false
        → (has_branch os repo (branch_for job_id) (os.mkdir_all base w).0).1 ≡ ok false
        → After base repo job_id w
            (add_worktree os repo job_id path head warning (os.mkdir_all base w).0)
    unfolding add_worktree
    add_worktree-After path head warning w p free unused =
        by_outcome
          (os.git repo ("worktree" ∷ "add" ∷ "-b" ∷ branch_for job_id ∷ path ∷ "HEAD" ∷ [])
            (os.mkdir_all base w).0).1.failure
      where
        by_outcome :
            (f : Option Failure)
            → After base repo job_id w (
              (os.git repo
                  ("worktree" ∷ "add" ∷ "-b" ∷ branch_for job_id ∷ path ∷ "HEAD" ∷ [])
                  (os.mkdir_all base w).0).0,
              elim f [
                | some f ↦ failed worktree_add_failed
                | none ↦ ok (record {
                  job_id = job_id;
                  path = path;
                  branch = branch_for job_id;
                  base_commit = head;
                  dirty_warning = warning;
                })
              ],
            )
        by_outcome none = (p, refl, free, unused, refl)
        by_outcome (some f) = inr (inr refl)

    has_branch_reads : (branch : String) (w : World) → (has_branch os repo branch w).0 ≡ w
    unfolding has_branch
    has_branch_reads branch w = reads_only repo _ w (ask_ref _)

    dirty_warning_reads : (w : World) → (dirty_warning os repo w).0 ≡ w
    unfolding dirty_warning
    dirty_warning_reads w = reads_only repo _ w ask_status

    create_at-After :
        (path head : String) (w : World)
        → path ≡ os.join base (joined "job-" job_id)
        → After base repo job_id w (create_at os repo job_id path head (os.mkdir_all base w).0)
    unfolding create_at
    create_at-After path head w p =
        if_cases (After base repo job_id w) (os.present path (os.mkdir_all base w).0) _ _
          (λ _. inr (inl refl))
          (λ free.
            by_found free (has_branch os repo (branch_for job_id) (os.mkdir_all base w).0).1 refl)
      where
        by_found :
            os.present path (os.mkdir_all base w).0 ≡ false
            → (a : Answer Bool)
            → (has_branch os repo (branch_for job_id) (os.mkdir_all base w).0).1 ≡ a
            → After base repo job_id w (
                let w' = (has_branch os repo (branch_for job_id) (os.mkdir_all base w).0).0 in
                elim a [
                  | failed e ↦ (w', failed e)
                  | ok b ↦
                      if b
                      then (w', failed branch_exists)
                      else add_worktree os repo job_id path head
                          (dirty_warning os repo w').1
                          (dirty_warning os repo w').0
                ])
        by_found free (failed e) h = inr (inl (has_branch_reads _ _))
        by_found free (ok true) h = inr (inl (has_branch_reads _ _))
        by_found free (ok false) h =
            let w' = (has_branch os repo (branch_for job_id) (os.mkdir_all base w).0).0 in
            let asked = dirty_warning_reads w' ∙ has_branch_reads _ _ in
            subst
              (λ v.
                After base repo job_id w
                  (add_worktree os repo job_id path head (dirty_warning os repo w').1 v))
              (sym asked) (add_worktree-After path head _ w p free h)

    -- The part of Create behind its first query.
    abbrev past_head : Option Failure → String → World → World × Answer Handle
    past_head f output w = elim f [
      | some f ↦ (w, failed rev_parse_failed)
      | none ↦
          let (w2, made) = os.mkdir_all base w in
          if made
          then create_at os repo job_id (os.join base (joined "job-" job_id)) (trim_space output) w2
          else (w2, failed mkdir_failed)
    ]

    past_head-After :
        (f : Option Failure) (output : String) (w : World)
        → After base repo job_id w (past_head f output w)
    past_head-After (some f) output w = inl refl
    past_head-After none output w =
        if_cases (After base repo job_id w) (os.mkdir_all base w).1 _ _
          (λ _. create_at-After _ (trim_space output) w refl) (λ _. inr (inl refl))

    -- While the queries of git change nothing, a Create that fails before its last command leaves the
    -- state as it was, or has at most made the base directory; a Create that succeeds has found the
    -- path free and the branch absent, and has done no more than that command on top.
    pub create-After : (w : World) → After base repo job_id w (create os base repo job_id w)
    unfolding create
    create-After w =
        let (w', out) = os.git repo ("rev-parse" ∷ "HEAD" ∷ []) w in
        subst (λ v. After base repo job_id w (past_head out.failure out.output v))
          (sym (reads_only repo _ w ask_head)) (past_head-After out.failure out.output w)
