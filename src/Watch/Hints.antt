-- ===== src/Watch/Hints.antt =====
-- No change at or below the target goes without a hint.
use pi_mcp.Prelude.{
  ◌≡◌, ◌⊎◌, inl, inr, Bool, true, false, ◌||◌, List, [], ◌∷◌, ◌++◌, arith, Bool-cases, if_cases,
}
use pi_mcp.Watch.Nearest.{IsClean, within_iff}
use pi_mcp.Watch.{
  FilePath, within, Watcher, Change, Step, change, fires, failure, stops, taken, rearm, on_change,
  on_step, run,
}

-- The steps that neither end the watch nor take the hint.
abbrev pub is_unbroken : List Step → Bool
is_unbroken [] = true
is_unbroken (taken ∷ steps) = false
is_unbroken (stops ∷ steps) = false
is_unbroken (s ∷ steps) = is_unbroken steps

abbrev pub fired : List Step → Bool
fired [] = false
fired (fires ∷ steps) = true
fired (s ∷ steps) = fired steps

-- A hint is there, or the timer runs and will give one.
abbrev Owes : Watcher → Type 0
Owes w = (w.stopped ≡ false) × ((w.hint || w.armed) ≡ true)

on_change-Owes :
    (target : FilePath) (c : Change) (w : Watcher) → Owes w → Owes (on_change target c w)
unfolding on_change rearm
on_change-Owes target c w h = ground (arith, h)

on_change-hint :
    (target : FilePath) (c : Change) (w : Watcher)
    → w.hint ≡ true
    → (on_change target c w).hint ≡ true
unfolding on_change rearm
on_change-hint target c w h = ground (arith, h)

change-Owes :
    (target : FilePath) (c : Change) (w : Watcher) → Owes w → Owes (on_step target (change c) w)
unfolding on_step
change-Owes target c w h = if_cases Owes w.stopped _ _ (λ _. h) (λ _. on_change-Owes target c w h)

change-hint :
    (target : FilePath) (c : Change) (w : Watcher)
    → w.hint ≡ true
    → (on_step target (change c) w).hint ≡ true
unfolding on_step
change-hint target c w k =
    if_cases (λ (v : Watcher). v.hint ≡ true) w.stopped _ _ (λ _. k)
      (λ _. on_change-hint target c w k)

run-Owes :
    (target : FilePath) (steps : List Step) (w : Watcher)
    → is_unbroken steps ≡ true
    → Owes w
    → Owes (run target steps w)
unfolding run on_step
run-Owes target [] w g h = h
run-Owes target (change c ∷ steps) w g (s, h) =
    run-Owes target steps (on_step target (change c) w) g (change-Owes target c w (s, h))
run-Owes target (fires ∷ steps) w g (s, h) =
    run-Owes target steps (on_step target fires w) g (ground arith)
run-Owes target (failure ∷ steps) w g (s, h) =
    run-Owes target steps (on_step target failure w) g (ground arith)
run-Owes target (stops ∷ steps) w g h = absurd (cc g)
run-Owes target (taken ∷ steps) w g h = absurd (cc g)

-- A hint stays until it is taken.
hint-run :
    (target : FilePath) (steps : List Step) (w : Watcher)
    → is_unbroken steps ≡ true
    → Owes w
    → w.hint ≡ true
    → (run target steps w).hint ≡ true
unfolding run on_step
hint-run target [] w g h k = k
hint-run target (change c ∷ steps) w g (s, h) k =
    hint-run target steps (on_step target (change c) w) g (change-Owes target c w (s, h))
      (change-hint target c w k)
hint-run target (fires ∷ steps) w g (s, h) k =
    hint-run target steps (on_step target fires w) g (ground arith) (ground arith)
hint-run target (failure ∷ steps) w g (s, h) k =
    hint-run target steps (on_step target failure w) g (ground arith) (ground arith)
hint-run target (stops ∷ steps) w g h k = absurd (cc g)
hint-run target (taken ∷ steps) w g h k = absurd (cc g)

hint-fired :
    (target : FilePath) (steps : List Step) (w : Watcher)
    → is_unbroken steps ≡ true
    → Owes w
    → fired steps ≡ true
    → (run target steps w).hint ≡ true
unfolding run on_step
hint-fired target [] w g h f = absurd (cc f)
hint-fired target (change c ∷ steps) w g (s, h) f =
    hint-fired target steps (on_step target (change c) w) g (change-Owes target c w (s, h)) f
hint-fired target (fires ∷ steps) w g (s, h) f =
    hint-run target steps (on_step target fires w) g (ground arith) (ground arith)
hint-fired target (failure ∷ steps) w g (s, h) f =
    hint-fired target steps (on_step target failure w) g (ground arith) f
hint-fired target (stops ∷ steps) w g h f = absurd (cc g)
hint-fired target (taken ∷ steps) w g h f = absurd (cc g)

first-Owes :
    (target : FilePath) (c : Change) (w : Watcher)
    → w.stopped ≡ false
    → within target c.name ≡ true
    → Owes (on_step target (change c) w)
unfolding on_step on_change rearm
first-Owes target c w s inside = ground arith

-- After a change of the target or of something below it, by a clean path, while the watch goes on and
-- nobody takes the hint, whatever else happens there is a hint or the timer runs; and once the timer
-- has fired there is a hint.
pub change_gives_hint :
    (target rest : FilePath) (c : Change) (w : Watcher) (steps : List Step)
    → w.stopped ≡ false
    → IsClean c.name
    → c.name ≡ target ++ rest
    → is_unbroken steps ≡ true
    → let w' = run target (change c ∷ steps) w in
      ((w'.hint || w'.armed) ≡ true) × ((fired steps ≡ false) ⊎ (w'.hint ≡ true))
unfolding run
change_gives_hint target rest c w steps s clean below g =
    let inside = (within_iff target c.name clean).1 (rest, below) in
    let first = first-Owes target c w s inside in
    (
      (run-Owes target steps (on_step target (change c) w) g first).1,
      elim (Bool-cases (fired steps)) [
        | inl f ↦ inr (hint-fired target steps (on_step target (change c) w) g first f)
        | inr n ↦ inl n
      ],
    )
