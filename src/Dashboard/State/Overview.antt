-- ===== src/Dashboard/State/Overview.antt =====
-- The counts of the overview and the order of its rows.
use pi_mcp.Prelude.{
  ◌≤◌, ◌⊎◌, length, ℕ, suc, ◌+◌, ◌≡◌, refl, Bool, true, false, ◌||◌, String, List, [], ◌∷◌, map,
  arith, All,
}
use pi_mcp.Prelude.Sort.{
  sort_by, Pairwise, InOrder-Pairwise, sort_by-InOrder, tally_by, tally_by-sort_by,
}
use pi_mcp.Model.{Status, queued, running, completed, failed, aborted, stalled}
use pi_mcp.LiveStatus.{is_terminal, derive, map_disk}
use pi_mcp.Dashboard.State.{
  Counts, JobSummary, Seen, of_job, without_run, with_run, summarize, count_status, count_jobs,
  no_counts, shown_first, build_state,
}

shown_first_asym : (a b : JobSummary) → shown_first a b ≡ true → shown_first b a ≡ false
unfolding shown_first
shown_first_asym a b h = ground arith

shown_first_trans :
    (a b c : JobSummary)
    → shown_first a b ≡ false
    → shown_first b c ≡ false
    → shown_first a c ≡ false
unfolding shown_first
shown_first_trans a b c h k = ground arith

-- The statuses of a record that the registry writes.
abbrev pub is_job_status : Status → Bool
is_job_status queued = true
is_job_status running = true
is_job_status status = is_terminal status

abbrev pub is_stalled : Status → Bool
is_stalled stalled = true
is_stalled _ = false

abbrev pub sum_of : Counts → ℕ
sum_of c = c.running + c.queued + c.completed + c.failed + c.aborted + c.stalled

count_status_lem :
    (status : Status) (c : Counts)
    → (is_job_status status || is_stalled status) ≡ true
    → (sum_of (count_status status c) ≡ suc (sum_of c)) × ((count_status status c).total ≡ c.total)
unfolding count_status is_terminal
count_status_lem status c h = ground arith

summarize_status :
    (now : ℕ) (s : Seen)
    → is_job_status s.rec.status ≡ true
    → (is_job_status (summarize now s).status || is_stalled (summarize now s).status) ≡ true
unfolding summarize without_run with_run of_job derive map_disk is_terminal
summarize_status now s h = ground arith

count_jobs_lem :
    (now : ℕ) (seen : List Seen) (c : Counts)
    → All (λ (s : Seen). is_job_status s.rec.status ≡ true) seen
    → c.total ≡ sum_of c
    → (count_jobs (map (summarize now) seen) c).total
      ≡ sum_of (count_jobs (map (summarize now) seen) c)
unfolding count_jobs
count_jobs_lem now [] c a h = h
count_jobs_lem now (s ∷ seen) c (p, a) h = count_jobs_lem now seen _ a (
    ground (
      arith,
      count_status_lem (summarize now s).status (record c { total = suc c.total }),
      summarize_status now s,
    ))

-- The tests of a row for one status.
abbrev pub is_shown : Status → JobSummary → Bool
is_shown running row = elim (row.status) [ running ↦ true | _ ↦ false ]
is_shown queued row = elim (row.status) [ queued ↦ true | _ ↦ false ]
is_shown completed row = elim (row.status) [ completed ↦ true | _ ↦ false ]
is_shown failed row = elim (row.status) [ failed ↦ true | _ ↦ false ]
is_shown aborted row = elim (row.status) [ aborted ↦ true | _ ↦ false ]
is_shown stalled row = elim (row.status) [ stalled ↦ true | _ ↦ false ]
is_shown _ row = false

-- The counts that are added to some are those of the rows.
abbrev pub AddsUp : List JobSummary → Counts → Counts → Type 0
AddsUp rows c d =
    (d.total ≡ length rows + c.total)
    × (d.running ≡ tally_by (is_shown running) rows + c.running)
    × (d.queued ≡ tally_by (is_shown queued) rows + c.queued)
    × (d.completed ≡ tally_by (is_shown completed) rows + c.completed)
    × (d.failed ≡ tally_by (is_shown failed) rows + c.failed)
    × (d.aborted ≡ tally_by (is_shown aborted) rows + c.aborted)
    × (d.stalled ≡ tally_by (is_shown stalled) rows + c.stalled)

count_one :
    (row : JobSummary) (c : Counts)
    → AddsUp (row ∷ []) c (count_status row.status (record c { total = suc c.total }))
unfolding count_status tally_by
count_one row c = ground arith

count_jobs-AddsUp : (rows : List JobSummary) (c : Counts) → AddsUp rows c (count_jobs rows c)
unfolding count_jobs tally_by
count_jobs-AddsUp [] c =
    (omega arith, omega arith, omega arith, omega arith, omega arith, omega arith, omega arith)
count_jobs-AddsUp (row ∷ rows) c =
    let one = count_one row c in
    let rest =
      count_jobs-AddsUp rows (count_status row.status (record c { total = suc c.total })) in
    (
      omega (arith, one.0, rest.0),
      omega (arith, one.1, rest.1),
      omega (arith, one.2, rest.2),
      omega (arith, one.3, rest.3),
      omega (arith, one.4, rest.4),
      omega (arith, one.5, rest.5),
      omega (arith, one.6, rest.6),
    )

length-map : (now : ℕ) (seen : List Seen) → length (map (summarize now) seen) ≡ length seen
length-map now [] = refl
length-map now (s ∷ seen) = omega (arith, length-map now seen)

-- An active row before an ended one, and else the later started before the earlier.
abbrev pub ComesBefore : JobSummary → JobSummary → Type 0
ComesBefore a b =
    ((is_terminal a.status ≡ false) × (is_terminal b.status ≡ true))
    ⊎ ((is_terminal a.status ≡ is_terminal b.status) × (b.started_at ≤ a.started_at))

not_shown_first : (a b : JobSummary) → shown_first b a ≡ false → ComesBefore a b
unfolding shown_first is_terminal
not_shown_first a b h = ground arith

-- The overview of records with the registry's statuses: the total is the number of the records, each
-- count is the number of the rows that show its status, and the six counts add up to the total; the
-- rows are the records' rows, each as often; and of any two rows the one above is active and the other
-- has ended, or both are active or both have ended and the one above started no earlier.
pub build_state_lem :
    (seen : List Seen) (state_dir : String) (now : ℕ)
    → All (λ (s : Seen). is_job_status s.rec.status ≡ true) seen
    → let st = build_state seen state_dir now in
      (st.counts.total ≡ length seen)
      × AddsUp (map (summarize now) seen) no_counts st.counts
      × (st.counts.total ≡ sum_of st.counts)
      × Pairwise ComesBefore st.jobs
      × ((p : JobSummary → Bool) → tally_by p st.jobs ≡ tally_by p (map (summarize now) seen))
unfolding build_state
build_state_lem seen state_dir now a =
    let rows = map (summarize now) seen in
    let counted = count_jobs-AddsUp rows no_counts in
    let same_length = length-map now seen in
    (
      omega (arith, counted.0, same_length),
      counted,
      count_jobs_lem now seen no_counts a refl,
      InOrder-Pairwise shown_first ComesBefore (λ x y h. not_shown_first x y h)
          (sort_by shown_first rows)
          (sort_by-InOrder shown_first shown_first_asym shown_first_trans rows),
      (λ p. tally_by-sort_by shown_first p rows),
    )
