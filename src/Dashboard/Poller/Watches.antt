-- ===== src/Dashboard/Poller/Watches.antt =====
-- The set of watched directories.
use pi_mcp.Prelude.{
  ℕ, ◌+◌, ◌≤◌, ◌≡◌, refl, inl, inr, Bool, false, not, ◌&&◌, ◌||◌, String, Option, none, some, List,
  [], ◌∷◌, ◌++◌, arith, mem, same, Bool-cases,
}
use pi_mcp.Prelude.Dict.{one_if}
use pi_mcp.Dashboard.Poller.{
  Watched, no_watches, kept, dropped, subscribe_to, subscribe_all, refresh_watches,
}

-- How often a directory stands in a list.
abbrev pub times : String → List String → ℕ
times d [] = 0
times d (x ∷ xs) = one_if (same x d) + times d xs

times-append : (d : String) (xs ys : List String) → times d (xs ++ ys) ≡ times d xs + times d ys
times-append d [] ys = omega arith
times-append d (x ∷ xs) ys = omega (arith, times-append d xs ys)

mem-times : (d : String) (xs : List String) → mem d xs ≡ false → times d xs ≡ 0
mem-times d [] h = refl
mem-times d (x ∷ xs) h = ground (arith, mem-times d xs)

mem-kept :
    (d : String) (want subs : List String) → mem d (kept want subs) ≡ (mem d want && mem d subs)
unfolding kept
mem-kept d want [] = ground arith
mem-kept d want (x ∷ xs) = ground (arith, mem-kept d want xs)

mem-subscribe_to :
    (works : String → Bool) (d dir : String) (w : Watched)
    → mem d (subscribe_to works dir w).subs
      ≡ (mem d w.subs || (same dir d && (not (same d "") && works d)))
unfolding subscribe_to
mem-subscribe_to works d dir w = elim (Bool-cases (same dir d)) [
  | inl e ↦ let p : dir ≡ d = ground arith in rw p (ground arith)
  | inr n ↦ ground arith
]

mem-subscribe_all :
    (works : String → Bool) (d : String) (want : List String) (w : Watched)
    → mem d (subscribe_all works want w).subs
      ≡ (mem d w.subs || (mem d want && (not (same d "") && works d)))
unfolding subscribe_all
mem-subscribe_all works d [] w = ground arith
mem-subscribe_all works d (dir ∷ want) w = ground (
  arith,
  mem-subscribe_all works d want (subscribe_to works dir w),
  mem-subscribe_to works d dir w,
)

times-split :
    (d : String) (want subs : List String)
    → times d (kept want subs) + times d (dropped want subs) ≡ times d subs
unfolding kept dropped
times-split d want [] = refl
times-split d want (x ∷ xs) = ground (arith, times-split d want xs)

-- Each subscription that was made is in the map or was stopped, and the map has no key twice.
abbrev pub IsBalanced : Watched → Type 0
IsBalanced w =
    (d : String) → (times d w.opened ≡ times d w.stopped + times d w.subs) × (times d w.subs ≤ 1)

subscribe_to-IsBalanced :
    (works : String → Bool) (dir : String) (w : Watched)
    → IsBalanced w
    → IsBalanced (subscribe_to works dir w)
unfolding subscribe_to
subscribe_to-IsBalanced works dir w h d = elim (Bool-cases (same dir d)) [
  | inl e ↦ let p : dir ≡ d = ground arith in rw p (ground (arith, h d, mem-times d w.subs))
  | inr n ↦ ground (arith, h d)
]

subscribe_all-IsBalanced :
    (works : String → Bool) (want : List String) (w : Watched)
    → IsBalanced w
    → IsBalanced (subscribe_all works want w)
unfolding subscribe_all
subscribe_all-IsBalanced works [] w h = h
subscribe_all-IsBalanced works (dir ∷ want) w h =
    subscribe_all-IsBalanced works want (subscribe_to works dir w)
      (subscribe_to-IsBalanced works dir w h)

refresh-IsBalanced :
    (works : String → Bool) (want : Option (List String)) (w : Watched)
    → IsBalanced w
    → IsBalanced (refresh_watches works want w)
unfolding refresh_watches
refresh-IsBalanced works none w h =
    λ d. (omega (arith, (h d).0, times-append d w.subs w.stopped), omega arith)
refresh-IsBalanced works (some want) w h = subscribe_all-IsBalanced works want _ λ d. (
  omega (arith, (h d).0, times-split d want w.subs, times-append d (dropped want w.subs) w.stopped),
  omega (arith, (h d).1, times-split d want w.subs),
)

-- A call of refreshWatches, with the subscriptions that succeed while it runs.
abbrev pub Refresh : Type 0
Refresh = (String → Bool) × Option (List String)

unfoldable pub refreshes : List Refresh → Watched → Watched
unfolding refresh_watches
refreshes [] w = w
refreshes ((works, want) ∷ rest) w = refreshes rest (refresh_watches works want w)

refreshes-IsBalanced :
    (rs : List Refresh) (w : Watched) → IsBalanced w → IsBalanced (refreshes rs w)
unfolding refreshes
refreshes-IsBalanced [] w h = h
refreshes-IsBalanced ((works, want) ∷ rs) w h =
    refreshes-IsBalanced rs (refresh_watches works want w) (refresh-IsBalanced works want w h)

-- Whatever the poller wanted before, and whichever subscriptions failed: after a refresh it watches
-- a directory exactly if it wants it and either watched it before or has a name for it and can
-- subscribe; it watches none twice; and every subscription ever made is either one that it watches
-- now or was stopped, once. After a shutdown all were stopped.
pub refreshes_lem :
    (rs : List Refresh) (works : String → Bool) (want : List String) (d : String)
    → let w = refreshes rs no_watches in
      let w' = refresh_watches works (some want) w in
      let end = refresh_watches works none w' in
      (mem d w'.subs ≡ (mem d want && (mem d w.subs || (not (same d "") && works d))))
      × (times d w'.subs ≤ 1)
      × (times d w'.opened ≡ times d w'.stopped + times d w'.subs)
      × (times d end.opened ≡ times d end.stopped)
unfolding refresh_watches
refreshes_lem rs works want d =
    let w = refreshes rs no_watches in
    let start = refreshes-IsBalanced rs no_watches (λ _. (refl, omega arith)) in
    let after = refresh-IsBalanced works (some want) w start in
    let end = refresh-IsBalanced works none (refresh_watches works (some want) w) after in
    (
      ground (
        arith,
        mem-subscribe_all works d want
            (record w { subs = kept want w.subs; stopped = dropped want w.subs ++ w.stopped }),
        mem-kept d want w.subs,
      ),
      (after d).1,
      (after d).0,
      omega (arith, (end d).0),
    )
