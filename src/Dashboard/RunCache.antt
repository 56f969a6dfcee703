-- ===== src/Dashboard/RunCache.antt =====
-- internal/dashboard/runcache.go: parsed run files, kept by the time and size of the file. One reader
-- at a time: the code releases its lock while it parses.
pub mod Reads
use pi_mcp.Prelude.{
  ℕ, ◌*◌, ◌≡◌, refl, Bool, true, ◌&&◌, String, Option, none, some, List, [], ◌∷◌, map, arith, ◌==◌,
  ltb, same, if◌then◌else◌, if_cases, Option-cases, inl, inr, subst, sym,
}
use pi_mcp.Prelude.Clock.{ℤ, pos, negsuc, sub_time, exceeds, minute}
use pi_mcp.Prelude.Dict.{Dict, lookup, insert}
use pi_mcp.Model.{Run}
use pi_mcp.RunStore.Files.{read_run}

pub record CacheEntry : Type 0 where
  pub mtime : ℕ
  pub size : ℕ
  pub run : Run
  pub last_used : ℕ

pub record RunCache : Type 0 where
  pub entries : Dict CacheEntry
  pub last_sweep : ℕ

abbrev pub new_run_cache : RunCache
new_run_cache = record { entries = []; last_sweep = 0 }

abbrev pub cache_entry_ttl : ℕ
cache_entry_ttl = 30 * minute

abbrev pub cache_sweep_every : ℕ
cache_sweep_every = 5 * minute

-- `d < bound`, for a bound that is not negative.
abbrev pub below : ℤ → ℕ → Bool
below (pos n) bound = ltb n bound
below (negsuc n) bound = true

-- `delete(m, k)` of a map that may hold the key once.
unfoldable pub drop_key : String → Dict CacheEntry → Dict CacheEntry
drop_key k [] = []
drop_key k ((j, e) ∷ d) = let rest = drop_key k d in if same j k then rest else (j, e) ∷ rest

unfoldable pub drop_unused : ℕ → Dict CacheEntry → Dict CacheEntry
drop_unused now [] = []
drop_unused now ((j, e) ∷ d) =
    let rest = drop_unused now d in
    if exceeds (sub_time now e.last_used) cache_entry_ttl then rest else (j, e) ∷ rest

unfoldable pub sweep_locked : ℕ → RunCache → RunCache
unfolding drop_unused
sweep_locked now c =
    if below (sub_time now c.last_sweep) cache_sweep_every
    then c
    else record { entries = drop_unused now c.entries; last_sweep = now }

-- What a read sees: the clock, the path, the file's time and size, `none` if there is no file, and what
-- the files of the directory decode to, the backups among them.
pub record CacheRead : Type 0 where
  pub now : ℕ
  pub path : String
  pub stat : Option (ℕ × ℕ)
  pub decode : String → Option Run

abbrev pub is_hit : ℕ → ℕ → CacheEntry → Bool
is_hit mtime size e = e.mtime == mtime && e.size == size

abbrev pub fill : CacheRead → ℕ → ℕ → Option Run → RunCache → Option Run × RunCache
fill r mtime size none c = (none, c)
fill r mtime size (some run) c = (
  some run,
  record c {
    entries =
        insert r.path (record { mtime = mtime; size = size; run = run; last_used = r.now })
          c.entries;
  },
)

-- The parse is ReadRun, which reads the backup where the file does not decode.
unfoldable pub fetch : CacheRead → ℕ → ℕ → Option CacheEntry → RunCache → Option Run × RunCache
unfolding read_run
fetch r mtime size none c = fill r mtime size (read_run r.decode r.path) c
fetch r mtime size (some e) c =
    if is_hit mtime size e
    then (
      some e.run,
      record c { entries = insert r.path (record e { last_used = r.now }) c.entries },
    )
    else fill r mtime size (read_run r.decode r.path) c

unfoldable pub read_stat : CacheRead → Option (ℕ × ℕ) → RunCache → Option Run × RunCache
unfolding sweep_locked drop_key fetch
read_stat r none c = (none, record c { entries = drop_key r.path c.entries })
read_stat r (some (mtime, size)) c =
    let c' = sweep_locked r.now c in fetch r mtime size (lookup r.path c'.entries) c'

unfoldable pub read : CacheRead → RunCache → Option Run × RunCache
unfolding read_stat
read r c = read_stat r r.stat c

unfoldable pub read_all : List CacheRead → RunCache → List (Option Run)
unfolding read
read_all [] c = []
read_all (r ∷ rs) c = let (run, c') = read r c in run ∷ read_all rs c'
