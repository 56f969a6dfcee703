-- ===== src/Tests/Listings.antt =====
-- Two run files, at the theorems about the listing, the cache and the overview.
use pi_mcp.Prelude.{
  ◌⊎◌, ◌<◌, take, ℕ, ◌≤◌, ◌≡◌, refl, Bool, false, String, Option, none, some, List, [], ◌∷◌, map,
  length, drop, All, string_dec, same, ◌==◌, if◌then◌else◌,
}
use pi_mcp.Prelude.Sort.{Pairwise, sort_by, InOrder, tally_by}
use pi_mcp.Model.{running, completed, Run, write, read}
use pi_mcp.LiveStatus.{is_terminal}
use pi_mcp.RunStore.Files.{Entry, Scored, read_run, newer, rows, list_rows}
use pi_mcp.RunStore.Files.Order.{list_rows_lem}
use pi_mcp.Prelude.Dict.{lookup, insert}
use pi_mcp.Dashboard.RunCache
use pi_mcp.Dashboard.RunCache.{
  CacheRead, new_run_cache, read_all, read_stat, fetch, sweep_locked, drop_unused,
}
use pi_mcp.Dashboard.RunCache.Reads.{fresh, read_all_lem}
use pi_mcp.Dashboard.State.{no_counts, JobSummary, Seen, summarize, build_state}
use pi_mcp.Dashboard.State.Overview.{AddsUp, ComesBefore, sum_of, build_state_lem}
use pi_mcp.Tests.Tables.{record_of}
use pi_mcp.Tests.Answers.{run_of}
use pi_mcp.Prelude.Clock.{pos, sub_time}

abbrev entry : String → Entry
entry name = record { name = name; is_dir = false }

-- Two runs and a backup, which is not listed.
abbrev files : List Entry
files = entry "r1.json" ∷ entry "r2.json" ∷ entry "r1.json.bak" ∷ []

abbrev decode : String → Option Run
decode name =
    if same name "r1.json" then none else some (record (run_of completed [] []) { run_id = name })

list_rows_lem_example :
    let all = sort_by newer (rows decode files) in
    InOrder newer all
    × Pairwise (λ (a b : Scored). b.updated ≤ a.updated) all
    × ((p : Scored → Bool) → tally_by p all ≡ tally_by p (rows decode files))
    × ((((◌≡◌ {A = ℕ} 1 0) ⊎ (length (rows decode files) ≤ 1)) × (list_rows decode 1 files ≡ all))
        ⊎ ((0 < 1)
            × (1 < length (rows decode files))
            × (list_rows decode 1 files ≡ take 1 all)
            × (length (list_rows decode 1 files) ≡ 1)
            × All
                (λ kept. All (λ left. newer left kept ≡ false) (drop 1 all))
                (list_rows decode 1 files)))
list_rows_lem_example = list_rows_lem decode 1 files

-- A file that changes between two reads.
abbrev content : String → ℕ → ℕ → Run
content path mtime size = if mtime == 1 then run_of running [] [] else run_of completed [] []

abbrev read_at : ℕ → ℕ → CacheRead
read_at now mtime = record {
  now = now;
  path = "r1";
  stat = some (mtime, 10);
  decode = λ name. some (content name mtime 10);
}

abbrev reads : List CacheRead
reads = read_at 1 1 ∷ read_at 2 1 ∷ read_at 3 2 ∷ []

read_all_lem_example : read_all reads new_run_cache ≡ map fresh reads
read_all_lem_example = read_all_lem content reads (refl, (refl, (refl, tt)))

-- A file that does not decode, beside a backup.
abbrev broken_at : ℕ → Run → CacheRead
broken_at now backup = record {
  now = now;
  path = "r1";
  stat = some (1, 10);
  decode = λ name. if same name "r1.bak" then some backup else none;
}

-- The later read yields the backup of the earlier one.
stale_backup :
    read_all
      (broken_at 1 (run_of running [] []) ∷ broken_at 2 (run_of completed [] []) ∷ [])
      new_run_cache
    ≡ some (run_of running [] []) ∷ some (run_of running [] []) ∷ []
unfolding read_all RunCache.read read_stat fetch sweep_locked drop_unused read_run lookup insert
    string_dec sub_time
stale_backup = refl

abbrev seen : List Seen
seen =
    record { rec = record_of "a" write completed (pos 4); run = none; active = false }
    ∷ record {
      rec = record_of "b" read running (pos 5);
      run = some (run_of running [] []);
      active = false;
    }
    ∷ []

build_state_lem_example :
    let st = build_state seen "/state" 9 in
    (st.counts.total ≡ 2)
    × AddsUp (map (summarize 9) seen) no_counts st.counts
    × (st.counts.total ≡ sum_of st.counts)
    × Pairwise ComesBefore st.jobs
    × ((p : JobSummary → Bool) → tally_by p st.jobs ≡ tally_by p (map (summarize 9) seen))
unfolding is_terminal
build_state_lem_example = build_state_lem seen "/state" 9 (refl, (refl, tt))
