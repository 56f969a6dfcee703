-- ===== src/Dashboard/RunCache/Reads.antt =====
-- When the cache of parsed runs is never seen.
use pi_mcp.Prelude.{
  ℕ, ◌≡◌, refl, sym, ap, ◌∙◌, String, Option, none, some, List, [], ◌∷◌, map, arith, All, same,
  if_cases, subst,
}
use pi_mcp.Prelude.Clock.{sub_time, exceeds}
use pi_mcp.Prelude.Dict.{Dict, lookup, insert}
use pi_mcp.Model.{Run}
use pi_mcp.RunStore.Files.{read_run}
use pi_mcp.Dashboard.RunCache.{
  CacheEntry, RunCache, new_run_cache, cache_entry_ttl, cache_sweep_every, below, drop_key,
  drop_unused, sweep_locked, CacheRead, is_hit, fill, fetch, read_stat, read, read_all,
}

-- What ReadRun yields at a read, where there is a file.
abbrev pub fresh : CacheRead → Option Run
fresh r = elim r.stat [ none ↦ none | some (mtime, size) ↦ read_run r.decode r.path ]

module _ (content : String → ℕ → ℕ → Run) where
  -- Every entry holds what the file of its time and size holds.
  abbrev AllTrue : Dict CacheEntry → Type 0
  AllTrue [] = Unit {0}
  AllTrue ((k, e) ∷ d) = (content k e.mtime e.size ≡ e.run) × AllTrue d

  drop_key-AllTrue : (k : String) (d : Dict CacheEntry) → AllTrue d → AllTrue (drop_key k d)
  unfolding drop_key
  drop_key-AllTrue k [] t = tt
  drop_key-AllTrue k ((j, e) ∷ d) (p, t) =
      if_cases AllTrue (same j k) _ _ (λ _. drop_key-AllTrue k d t)
        (λ _. (p, drop_key-AllTrue k d t))

  drop_unused-AllTrue : (now : ℕ) (d : Dict CacheEntry) → AllTrue d → AllTrue (drop_unused now d)
  unfolding drop_unused
  drop_unused-AllTrue now [] t = tt
  drop_unused-AllTrue now ((j, e) ∷ d) (p, t) =
      if_cases AllTrue (exceeds (sub_time now e.last_used) cache_entry_ttl) _ _
        (λ _. drop_unused-AllTrue now d t) (λ _. (p, drop_unused-AllTrue now d t))

  insert-AllTrue :
      (k : String) (e : CacheEntry) (d : Dict CacheEntry)
      → content k e.mtime e.size ≡ e.run
      → AllTrue d
      → AllTrue (insert k e d)
  unfolding insert
  insert-AllTrue k e [] p t = (p, tt)
  insert-AllTrue k e ((j, f) ∷ d) p (q, t) =
      if_cases AllTrue (same j k) _ _ (λ _. (p, t)) (λ _. (q, insert-AllTrue k e d p t))

  lookup-AllTrue :
      (k : String) (e : CacheEntry) (d : Dict CacheEntry)
      → AllTrue d
      → lookup k d ≡ some e
      → content k e.mtime e.size ≡ e.run
  unfolding lookup
  lookup-AllTrue k e [] t h = ground arith
  lookup-AllTrue k e ((j, f) ∷ d) (p, t) h = ground (arith, lookup-AllTrue k e d t)

  sweep_locked-AllTrue :
      (now : ℕ) (c : RunCache) → AllTrue c.entries → AllTrue (sweep_locked now c).entries
  unfolding sweep_locked
  sweep_locked-AllTrue now c t =
      if_cases (λ (c' : RunCache). AllTrue c'.entries)
        (below (sub_time now c.last_sweep) cache_sweep_every) _ _ (λ _. t)
        (λ _. drop_unused-AllTrue now c.entries t)

  abbrev pub DeterminedAt : CacheRead → Option (ℕ × ℕ) → Type 0
  DeterminedAt r none = Unit {0}
  DeterminedAt r (some (mtime, size)) = r.decode r.path ≡ some (content r.path mtime size)

  -- The file of a read, if it is there, decodes to what its time and size say.
  abbrev pub IsDetermined : CacheRead → Type 0
  IsDetermined r = DeterminedAt r r.stat

  -- A read yields a run, and keeps the entries true.
  abbrev Serves : Option Run → Option Run × RunCache → Type 0
  Serves wanted (got, c) = (got ≡ wanted) × AllTrue c.entries

  module _ (r : CacheRead) (mtime size : ℕ)
      (e : r.decode r.path ≡ some (content r.path mtime size)) where
    parsed : read_run r.decode r.path ≡ some (content r.path mtime size)
    unfolding read_run
    parsed = rw (e, read_run) refl

    fill-Serves :
        (c : RunCache)
        → AllTrue c.entries
        → Serves (read_run r.decode r.path) (fill r mtime size (read_run r.decode r.path) c)
    fill-Serves c t =
        subst (λ o. Serves o (fill r mtime size o c)) (sym parsed)
          (
            refl,
            insert-AllTrue r.path
                (record {
                  mtime = mtime;
                  size = size;
                  run = content r.path mtime size;
                  last_used = r.now;
                })
                c.entries refl t,
          )

    fetch-Serves :
        (o : Option CacheEntry) (c : RunCache)
        → lookup r.path c.entries ≡ o
        → AllTrue c.entries
        → Serves (read_run r.decode r.path) (fetch r mtime size o c)
    unfolding fetch
    fetch-Serves none c h t = fill-Serves c t
    fetch-Serves (some held) c h t =
        let true_entry = lookup-AllTrue r.path held c.entries t h in
        if_cases (Serves (read_run r.decode r.path)) (is_hit mtime size held) _ _
          (λ hit.
            let same_time : held.mtime ≡ mtime = ground arith in
            let same_size : held.size ≡ size = ground arith in
            (
              ap some (
                    sym true_entry
                    ∙ ap (λ n. content r.path n held.size) same_time
                    ∙ ap (content r.path mtime) same_size)
                  ∙ sym parsed,
              insert-AllTrue r.path (record held { last_used = r.now }) c.entries true_entry t,
            ))
          (λ miss. fill-Serves c t)

  read-Serves :
      (r : CacheRead) (c : RunCache)
      → IsDetermined r
      → AllTrue c.entries
      → Serves (fresh r) (read r c)
  unfolding read
  read-Serves r c d t = by_stat r.stat d
    where
      by_stat :
          (o : Option (ℕ × ℕ))
          → DeterminedAt r o
          → Serves
              (elim o [ none ↦ none | some (mtime, size) ↦ read_run r.decode r.path ])
              (read_stat r o c)
      by_stat none d = unfold read_stat in (refl, drop_key-AllTrue r.path c.entries t)
      by_stat (some (mtime, size)) d =
          unfold read_stat in
          fetch-Serves r mtime size d (lookup r.path (sweep_locked r.now c).entries)
            (sweep_locked r.now c) refl (sweep_locked-AllTrue r.now c t)

  read_all-AllTrue :
      (rs : List CacheRead) (c : RunCache)
      → All IsDetermined rs
      → AllTrue c.entries
      → read_all rs c ≡ map fresh rs
  unfolding read_all
  read_all-AllTrue [] c d t = refl
  read_all-AllTrue (r ∷ rs) c (d, ds) t =
      let (p, t') = read-Serves r c d t in cc (p, read_all-AllTrue rs (read r c).1 ds t')

  -- As long as every file that is there decodes, to a run that its time and size determine, the cache
  -- is never seen: any reads of any files at any times, with their sweeps, and whatever the backups
  -- hold, yield what ReadRun yields then, and nothing where there is no file.
  pub read_all_lem :
      (rs : List CacheRead) → All IsDetermined rs → read_all rs new_run_cache ≡ map fresh rs
  read_all_lem rs d = read_all-AllTrue rs new_run_cache d tt
