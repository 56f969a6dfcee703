-- ===== src/Watch.antt =====
-- internal/watch/watch.go: the watch of a directory that may not exist yet. A path is the list of the
-- elements of a clean absolute one, and `works` says of a directory whether fsnotify can add it.
pub mod Nearest
pub mod Hints
use pi_mcp.Prelude.{
  ℕ, zero, suc, ◌-◌, Bool, true, false, not, ◌&&◌, ◌||◌, String, Option, none, some, List, [], ◌∷◌,
  ◌++◌, same, if◌then◌else◌, length, take,
}

abbrev pub FilePath : Type 0
FilePath = List String

unfoldable pub same_path : FilePath → FilePath → Bool
same_path [] [] = true
same_path [] (d ∷ q) = false
same_path (c ∷ p) [] = false
same_path (c ∷ p) (d ∷ q) = let rest = same_path p q in if same c d then rest else false

-- `filepath.Rel`: up from what is left of the base, and down the rest.
unfoldable pub ups : FilePath → FilePath
ups [] = []
ups (c ∷ p) = ".." ∷ ups p

unfoldable pub rel : FilePath → FilePath → FilePath
unfolding ups
rel [] q = q
rel (c ∷ p) [] = ups (c ∷ p)
rel (c ∷ p) (d ∷ q) = let rest = rel p q in if same c d then rest else ups (c ∷ p) ++ (d ∷ q)

abbrev pub goes_up : FilePath → Bool
goes_up [] = false
goes_up (c ∷ p) = same c ".."

unfoldable pub within : FilePath → FilePath → Bool
unfolding same_path rel
within target name = same_path name target || not (goes_up (rel target name))

-- The first loop of addNearest: how many elements of the target the nearest directory has that can be
-- watched. The root is tried last.
unfoldable pub find_up : (FilePath → Bool) → FilePath → ℕ → Option ℕ
find_up works target zero = if works [] then some 0 else none
find_up works target (suc n) =
    let rest = find_up works target n in if works (take (suc n) target) then some (suc n) else rest

-- The second loop, which goes down as far as it can. The third argument counts what is left.
unfoldable pub walk_down : (FilePath → Bool) → FilePath → ℕ → ℕ → List FilePath
walk_down works target n zero = []
walk_down works target n (suc left) =
    let rest = walk_down works target (suc n) left in
    if works (take (suc n) target) then take (suc n) target ∷ rest else []

-- The directories that are added, and whether there is no error. What can be watched may change
-- between the two loops.
unfoldable pub add_nearest : (FilePath → Bool) → (FilePath → Bool) → FilePath → List FilePath × Bool
unfolding find_up walk_down
add_nearest works works' target = elim (find_up works target (length target)) [
  | none ↦ ([], false)
  | some n ↦ (take n target ∷ walk_down works' target n (length target - n), true)
]

-- The goroutine of a watch. `armed` says that its timer runs, and `hint` that its channel, of one
-- place, is full.
pub record Watcher : Type 0 where
  pub armed : Bool
  pub hint : Bool
  pub watched : List FilePath
  pub stopped : Bool

abbrev pub notify : Watcher → Watcher
notify w = record w { hint = true }

-- An event of a path, and whether it is a creation; what can be added then, in both loops, and
-- whether the target exists.
pub record Change : Type 0 where
  pub name : FilePath
  pub is_create : Bool
  pub works : FilePath → Bool
  pub works_again : FilePath → Bool
  pub exists : Bool

-- `stops` is the end of the watch and `taken` a receive by the consumer.
pub data Step : Type 0 where
  change : Change → Step
  fires failure stops taken : Step

unfoldable pub rearm : FilePath → Change → Watcher → Watcher
unfolding add_nearest
rearm target c w =
    if c.is_create
    then record w {
      watched = (add_nearest c.works c.works_again target).0 ++ w.watched;
      hint = w.hint || c.exists;
    }
    else w

unfoldable pub on_change : FilePath → Change → Watcher → Watcher
unfolding rearm within
on_change target c w =
    let w' = rearm target c w in if within target c.name then record w' { armed = true } else w'

unfoldable pub on_step : FilePath → Step → Watcher → Watcher
unfolding on_change
on_step target taken w = record w { hint = false }
on_step target (change c) w = if w.stopped then w else on_change target c w
on_step target fires w = if w.armed && not w.stopped then record (notify w) { armed = false } else w
on_step target failure w = if w.stopped then w else notify w
on_step target stops w = record w { stopped = true; armed = false }

unfoldable pub run : FilePath → List Step → Watcher → Watcher
unfolding on_step
run target [] w = w
run target (s ∷ steps) w = run target steps (on_step target s w)

-- Subscribe, which fails where nothing can be watched.
unfoldable pub subscribe : (FilePath → Bool) → (FilePath → Bool) → FilePath → Option Watcher
unfolding add_nearest
subscribe works works' target =
    let (added, fine) = add_nearest works works' target in
    if fine
    then some (record { armed = false; hint = false; watched = added; stopped = false })
    else none
