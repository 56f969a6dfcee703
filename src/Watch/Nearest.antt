-- ===== src/Watch/Nearest.antt =====
-- How far addNearest gets, and what is at or below a target.
use pi_mcp.Prelude.{
  ℕ, zero, suc, ◌+◌, ◌-◌, ◌≤◌, ◌≡◌, ◌⊎◌, ◌↔◌, refl, sym, ap, ◌∙◌, inl, inr, Bool, true, false,
  Option, none, some, List, [], ◌∷◌, ◌++◌, arith, same, length, take, Bool-cases, string_dec, subst,
  leb,
}
use mathlib.Core.List.{append-nil}
use pi_mcp.Watch.{FilePath, same_path, ups, rel, goes_up, within, find_up, walk_down, add_nearest}

-- A path of which no element goes up.
abbrev pub IsClean : FilePath → Type 0
IsClean [] = Unit {0}
IsClean (c ∷ p) = (same c ".." ≡ false) × IsClean p

same_path→≡ : (p q : FilePath) → same_path p q ≡ true → p ≡ q
unfolding same_path
same_path→≡ [] [] h = refl
same_path→≡ [] (d ∷ q) h = absurd (cc h)
same_path→≡ (c ∷ p) [] h = absurd (cc h)
same_path→≡ (c ∷ p) (d ∷ q) h = ground (arith, same_path→≡ p q)

-- The relative path does not go up exactly below the base.
rel-below :
    (target name : FilePath)
    → IsClean name
    → goes_up (rel target name) ≡ false
    → (rest : FilePath) × (name ≡ target ++ rest)
unfolding rel ups string_dec
rel-below [] name clean h = (name, refl)
rel-below (c ∷ p) [] clean h = absurd (cc h)
rel-below (c ∷ p) (d ∷ q) (_, clean) h = elim (Bool-cases (same c d)) [
  | inl here ↦
      let (rest, e) = rel-below p q clean (ground arith) in
      let first : d ≡ c = ground arith in (rest, ap (λ n. n ∷ q) first ∙ ap (λ r. c ∷ r) e)
  | inr there ↦
      let up : goes_up (rel (c ∷ p) (d ∷ q)) ≡ true = rw there refl in
      let e : ◌≡◌ {A = Bool} true false = sym up ∙ h in absurd (cc e)
]

rel-append : (target rest : FilePath) → rel target (target ++ rest) ≡ rest
unfolding rel
rel-append [] rest = refl
rel-append (c ∷ p) rest = ground (arith, rel-append p rest)

clean-append : (target rest : FilePath) → IsClean (target ++ rest) → goes_up rest ≡ false
clean-append [] [] h = refl
clean-append [] (c ∷ rest) (h, k) = h
clean-append (c ∷ p) rest (h, k) = clean-append p rest k

-- A path without elements that go up is within a target exactly if it is the target and something
-- below it.
pub within_iff :
    (target name : FilePath)
    → IsClean name
    → (within target name ≡ true) ↔ ((rest : FilePath) × (name ≡ target ++ rest))
unfolding within
within_iff target name clean = (
  λ h. elim (Bool-cases (same_path name target)) [
    | inl e ↦ ([], same_path→≡ name target e ∙ sym (append-nil target))
    | inr n ↦ rel-below target name clean (ground arith)
  ],
  λ (rest, e).
      let level : goes_up (rel target name) ≡ false =
        ap (λ n. goes_up (rel target n)) e
        ∙ ap goes_up (rel-append target rest)
        ∙ clean-append target rest (subst IsClean e clean) in
      ground arith,
)

-- The prefixes of a target from one length on, a number of them.
abbrev pub prefixes : FilePath → ℕ → ℕ → List FilePath
prefixes target n zero = []
prefixes target n (suc count) = take n target ∷ prefixes target (suc n) count

find_up_lem :
    (works : FilePath → Bool) (target : FilePath) (n i : ℕ)
    → i ≤ n
    → works (take i target) ≡ true
    → (k : ℕ) × (find_up works target n ≡ some k) × (i ≤ k) × (k ≤ n)
unfolding find_up
find_up_lem works target zero i l h =
    let none_left : i ≡ 0 = omega arith in
    let root : works (take 0 target) ≡ true =
      subst (λ j. works (take j target) ≡ true) none_left h in
    (0, rw root refl, l, omega arith)
find_up_lem works target (suc n) i l h = elim (Bool-cases (works (take (suc n) target))) [
  | inl e ↦ (suc n, rw e refl, l, omega arith)
  | inr f ↦ elim (Bool-cases (leb i n)) [
    | inl low ↦
        let (k, e, a, b) = find_up_lem works target n i (ground arith) h in
        (k, rw f e, a, ground arith)
    | inr high ↦
        let last : i ≡ suc n = ground arith in
        let w : works (take (suc n) target) ≡ true =
          subst (λ j. works (take j target) ≡ true) last h in
        let e : ◌≡◌ {A = Bool} true false = sym w ∙ f in absurd (cc e)
  ]
]

walk_down_lem :
    (works : FilePath → Bool) (target : FilePath) (n left : ℕ)
    → (count : ℕ) × (walk_down works target n left ≡ prefixes target (suc n) count)
      × (count ≤ left)
      × ((count ≡ left) ⊎ (works (take (suc (n + count)) target) ≡ false))
unfolding walk_down
walk_down_lem works target n zero = (0, refl, omega arith, inl refl)
walk_down_lem works target n (suc left) = elim (Bool-cases (works (take (suc n) target))) [
  | inl e ↦
      let (count, p, l, s) = walk_down_lem works target (suc n) left in
      let shift : suc (suc n + count) ≡ suc (n + suc count) = omega arith in
      (
        suc count,
        rw e (ap (λ r. take (suc n) target ∷ r) p),
        omega arith,
        elim s [
          | inl q ↦ inl (ap suc q)
          | inr q ↦ inr (ap (λ m. works (take m target)) (sym shift) ∙ q)
        ],
      )
  | inr f ↦
      let here : suc (n + 0) ≡ suc n = omega arith in
      (0, rw f refl, omega arith, inr (ap (λ m. works (take m target)) here ∙ f))
]

-- The second half of addNearest.
abbrev from_nearest : (FilePath → Bool) → FilePath → Option ℕ → List FilePath × Bool
from_nearest works target o = elim o [
  | none ↦ ([], false)
  | some n ↦ (take n target ∷ walk_down works target n (length target - n), true)
]

-- If some directory on the way to the target can be watched, addNearest has no error and adds, one
-- after the other, the directories from one that is as deep as it down to the target, or down to
-- where the next one cannot be added.
pub add_nearest_lem :
    (works works' : FilePath → Bool) (target : FilePath) (i : ℕ)
    → i ≤ length target
    → works (take i target) ≡ true
    → (n : ℕ) × (count : ℕ) × (add_nearest works works' target
        ≡ (prefixes target n (suc count), true))
      × (i ≤ n)
      × (n + count ≤ length target)
      × ((n + count ≡ length target) ⊎ (works' (take (suc (n + count)) target) ≡ false))
unfolding add_nearest
add_nearest_lem works works' target i l h =
    let (n, e, a, b) = find_up_lem works target (length target) i l h in
    let (count, p, c, s) = walk_down_lem works' target n (length target - n) in
    (
      n,
      count,
      ap (from_nearest works' target) e ∙ ap (λ r. (take n target ∷ r, true)) p,
      a,
      omega arith,
      elim s [ inl q ↦ inl (omega arith) | inr q ↦ inr q ],
    )
