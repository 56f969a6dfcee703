-- ===== src/McpServer/Status/Answers.antt =====
-- What an answer of pi_status says, and what it never does.
use pi_mcp.Prelude.{
  ℕ, zero, suc, ◌+◌, ◌≤◌, ◌<◌, ◌≡◌, ◌≢◌, ◌⊎◌, ◌↔◌, inl, inr, ap, true, false, String, Option, none,
  some, [], ◌∷◌, arith, length, subst, ◌==◌, Bool-cases,
}
use pi_mcp.Model.{Bytes, Status, completed, aborted, Run, WriteInfo}
use pi_mcp.LiveStatus.{map_disk, is_terminal}
use pi_mcp.McpServer.Delta.{Tracker, take}
use pi_mcp.McpServer.Coerce.{Codec, View, coerce_result, coerce_view}
use pi_mcp.McpServer.Status.{
  World, Resolved, Input, Loaded, found, absent, broken, retry, grace_retries, load_with_grace,
  delta_key, pid_is_alive, worktree_last,
}
use pi_mcp.McpServer.Status.Build.{
  Output, blank, without_run, write_of, live_status, with_run, with_result, of_loaded, build_status,
}

retry_broken :
    (n i k : ℕ) (reads : ℕ → Loaded)
    → retry n i reads ≡ broken
    → i ≤ k
    → k < i + n
    → reads k ≡ broken
unfolding retry
retry_broken zero i k reads b h l = absurd (omega arith)
retry_broken (suc n) i k reads b h l = elim (Bool-cases (i == k)) [
  | inl here ↦ let p : i ≡ k = ground arith in subst (λ m. reads m ≡ broken) p (ground arith)
  | inr later ↦ ground (arith, retry_broken n (suc i) k reads)
]

-- A run file that pi is writing is given the whole grace: the answer is `broken` for a job that has
-- not ended only if every one of the five loads found it broken.
pub load_with_grace_broken :
    (status : Status) (reads : ℕ → Loaded) (k : ℕ)
    → is_terminal status ≡ false
    → load_with_grace status reads ≡ broken
    → k ≤ grace_retries
    → reads k ≡ broken
unfolding load_with_grace
load_with_grace_broken status reads zero live b h = ground arith
load_with_grace_broken status reads (suc k) live b h =
    ground (arith, retry_broken grace_retries 1 (suc k) reads)

module _ {Any : Type 0} (codec : Codec Any) where
  coerce_panics_iff :
      (raw : Bytes) → (coerce_result codec raw ≡ none) ↔ ((raw ≢ []) × (codec.view raw ≡ View.null))
  unfolding coerce_result coerce_view
  coerce_panics_iff [] = ground arith
  coerce_panics_iff (b ∷ raw) = ground arith

  -- An answer shows the blind window exactly for a known job that has not ended and whose run file
  -- the load finds absent.
  pub blind_window_iff :
      (w : World) (tgt : Resolved) (input : Input) (d : Tracker) (out : Output Any)
      → (build_status codec w tgt input d).0 ≡ some out
      → (out.blind_window ≡ true) ↔ (
          (load_with_grace tgt.job_status (w.reads tgt.runs_dir tgt.run_id) ≡ absent)
          × (tgt.has_job ≡ true)
          × (is_terminal tgt.job_status ≡ false))
  unfolding build_status of_loaded without_run with_run with_result blank
  blind_window_iff w tgt input d out e = ground arith

  -- For a run file that is not terminal, or that is aborted, the answer does not depend on what
  -- staging the worktree would yield.
  pub stages_nothing :
      (w : World) (tgt : Resolved) (input : Input) (d : Tracker)
      (staged : String → Option WriteInfo) (run : Run)
      → load_with_grace tgt.job_status (w.reads tgt.runs_dir tgt.run_id) ≡ found run
      → (is_terminal (map_disk run.status) ≡ false) ⊎ (map_disk run.status ≡ aborted)
      → build_status codec (record w { write_info = staged }) tgt input d
        ≡ build_status codec w tgt input d
  unfolding build_status of_loaded with_run blank live_status pid_is_alive worktree_last
  stages_nothing w tgt input d staged run e h =
      let p : write_of (record w { write_info = staged }) tgt run ≡ write_of w tgt run =
        unfold write_of in ground arith in
      let (from, d') = take (delta_key tgt) (length run.journal) input.from_start d in
      rw (e, build_status)
        (ap (λ b. (with_result codec run.result (with_run codec w tgt input from run b), d')) p)

  -- For a run file that loads, pi_status panics exactly when the run shows as completed and its
  -- stored result is not empty and is the JSON value `null`.
  pub build_status_panics_iff :
      (w : World) (tgt : Resolved) (input : Input) (d : Tracker) (run : Run)
      → load_with_grace tgt.job_status (w.reads tgt.runs_dir tgt.run_id) ≡ found run
      → ((build_status codec w tgt input d).0 ≡ none) ↔ (
          (live_status w tgt run ≡ completed)
          × (run.result ≢ [])
          × (codec.view run.result ≡ View.null))
  unfolding build_status of_loaded with_run with_result blank
  build_status_panics_iff w tgt input d run e =
      rw (e, build_status) (ground (arith, coerce_panics_iff run.result))
