-- ===== src/Prelude/Sort.antt =====
-- `sort.SliceStable`: equal entries keep their order. `less a b` says that `a` comes first.
use Prim.Native.Nat.{ℕ, zero, suc, ◌+◌}
use mathlib.Core.Path.{◌≡◌, refl}
use mathlib.Core.Bool.{Bool, true, false}
use mathlib.Core.List.{List, [], ◌∷◌}
use native.Mathlib.Omega.{arith}
use pi_mcp.Prelude.Tests.{if◌then◌else◌, if_cases}
use pi_mcp.Prelude.Lists.{take, drop, All}
use pi_mcp.Prelude.Dict.{one_if}

-- The number of entries that pass a test.
unfoldable pub tally_by : {A : Type 0} → (A → Bool) → List A → ℕ
tally_by p [] = 0
tally_by p (x ∷ xs) = one_if (p x) + tally_by p xs

module _ {A : Type 0} (less : A → A → Bool) where
  unfoldable pub insert_by : A → List A → List A
  insert_by x [] = x ∷ []
  insert_by x (y ∷ ys) = let rest = insert_by x ys in if less y x then y ∷ rest else x ∷ y ∷ ys

  unfoldable pub sort_by : List A → List A
  unfolding insert_by
  sort_by [] = []
  sort_by (x ∷ xs) = insert_by x (sort_by xs)

  -- No later entry comes before an earlier one.
  abbrev pub InOrder : List A → Type 0
  InOrder [] = Unit {0}
  InOrder (x ∷ xs) = All (λ y. less y x ≡ false) xs × InOrder xs

  module _ (asym : (a b : A) → less a b ≡ true → less b a ≡ false)
      (trans : (a b c : A) → less a b ≡ false → less b c ≡ false → less a c ≡ false) where
    All-insert_by :
        (x z : A) (ys : List A)
        → less x z ≡ false
        → All (λ y. less y z ≡ false) ys
        → All (λ y. less y z ≡ false) (insert_by x ys)
    unfolding insert_by
    All-insert_by x z [] h a = (h, tt)
    All-insert_by x z (y ∷ ys) h (b, a) =
        if_cases (All (λ w. less w z ≡ false)) (less y x) _ _
          (λ first. (b, All-insert_by x z ys h a)) (λ later. (h, (b, a)))

    All-trans :
        (x y : A) (ys : List A)
        → less y x ≡ false
        → All (λ w. less w y ≡ false) ys
        → All (λ w. less w x ≡ false) ys
    All-trans x y [] h a = tt
    All-trans x y (w ∷ ys) h (b, a) = (trans w y x b h, All-trans x y ys h a)

    insert_by-InOrder : (x : A) (ys : List A) → InOrder ys → InOrder (insert_by x ys)
    unfolding insert_by
    insert_by-InOrder x [] o = (tt, tt)
    insert_by-InOrder x (y ∷ ys) (a, o) =
        if_cases InOrder (less y x) _ _
          (λ first. (All-insert_by x y ys (asym y x first) a, insert_by-InOrder x ys o))
          (λ later. ((later, All-trans x y ys later a), (a, o)))

    pub sort_by-InOrder : (xs : List A) → InOrder (sort_by xs)
    unfolding sort_by
    sort_by-InOrder [] = tt
    sort_by-InOrder (x ∷ xs) = insert_by-InOrder x (sort_by xs) (sort_by-InOrder xs)

  tally_by-insert_by :
      (p : A → Bool) (x : A) (ys : List A)
      → tally_by p (insert_by x ys) ≡ one_if (p x) + tally_by p ys
  unfolding tally_by insert_by
  tally_by-insert_by p x [] = refl
  tally_by-insert_by p x (y ∷ ys) =
      if_cases (λ zs. tally_by p zs ≡ one_if (p x) + (one_if (p y) + tally_by p ys)) (less y x) _ _
        (λ _. omega (arith, tally_by-insert_by p x ys)) (λ _. refl)

  -- A sort keeps the entries.
  pub tally_by-sort_by : (p : A → Bool) (xs : List A) → tally_by p (sort_by xs) ≡ tally_by p xs
  unfolding tally_by sort_by
  tally_by-sort_by p [] = refl
  tally_by-sort_by p (x ∷ xs) =
      omega (arith, tally_by-insert_by p x (sort_by xs), tally_by-sort_by p xs)

-- Every entry stands to every later one in a relation.
abbrev pub Pairwise : {A : Type 0} → (A → A → Type 0) → List A → Type 0
Pairwise R [] = Unit {0}
Pairwise R (x ∷ xs) = All (R x) xs × Pairwise R xs

All-mono :
    {A : Type 0} (P Q : A → Type 0) → ((a : A) → P a → Q a) → (xs : List A) → All P xs → All Q xs
All-mono P Q h [] a = tt
All-mono P Q h (x ∷ xs) (p, a) = (h x p, All-mono P Q h xs a)

-- A list in order by a test is so by what the test decides.
pub InOrder-Pairwise :
    {A : Type 0} (less : A → A → Bool) (R : A → A → Type 0)
    → ((x y : A) → less y x ≡ false → R x y)
    → (xs : List A) → InOrder less xs
    → Pairwise R xs
InOrder-Pairwise less R h [] o = tt
InOrder-Pairwise less R h (x ∷ xs) (a, o) =
    (All-mono (λ y. less y x ≡ false) (R x) (h x) xs a, InOrder-Pairwise less R h xs o)

All-drop : {A : Type 0} (P : A → Type 0) (n : ℕ) (xs : List A) → All P xs → All P (drop n xs)
All-drop P zero xs a = a
All-drop P (suc n) [] a = tt
All-drop P (suc n) (x ∷ xs) (p, a) = All-drop P n xs a

-- Nothing that a limit cuts off comes before an entry that it keeps.
pub take-drop-InOrder :
    {A : Type 0} (less : A → A → Bool) (n : ℕ) (xs : List A)
    → InOrder less xs
    → All (λ x. All (λ y. less y x ≡ false) (drop n xs)) (take n xs)
take-drop-InOrder less zero xs o = tt
take-drop-InOrder less (suc n) [] o = tt
take-drop-InOrder less (suc n) (x ∷ xs) (a, o) =
    (All-drop (λ y. less y x ≡ false) n xs a, take-drop-InOrder less n xs o)
