-- ===== src/Runner/Search.antt =====
-- The text functions that prompt.go calls: strings.Index, strings.Replace and strings.TrimRight.
use pi_mcp.Prelude.{
  ℕ, suc, ◌+◌, ◌≤◌, ◌≡◌, refl, sym, ap, ◌∙◌, inl, inr, Bool, true, false, ◌||◌, Option, none, some,
  List, [], ◌∷◌, ◌++◌, arith, ◌==◌, if◌then◌else◌, length, take, drop, if_cases, Option-cases,
  Bool-cases,
}
use mathlib.Core.Option
use mathlib.Core.List.{append-nil}

unfoldable pub has_prefix : List ℕ → List ℕ → Bool
has_prefix [] s = true
has_prefix (d ∷ m) [] = false
has_prefix (d ∷ m) (c ∷ s) = let rest = has_prefix m s in if c == d then rest else false

unfoldable pub index_of : List ℕ → List ℕ → Option ℕ
unfolding has_prefix
index_of m [] = if has_prefix m [] then some 0 else none
index_of m (c ∷ s) =
    let rest = index_of m s in if has_prefix m (c ∷ s) then some 0 else Option.map suc rest

-- What stands before and behind the first place of a text that is not empty.
unfoldable pub split_at : List ℕ → List ℕ → Option (List ℕ × List ℕ)
unfolding has_prefix
split_at old [] = none
split_at old (c ∷ s) =
    let rest = split_at old s in
    if has_prefix old (c ∷ s)
    then some ([], drop (length old) (c ∷ s))
    else Option.map (λ (p : List ℕ × List ℕ). (c ∷ p.0, p.1)) rest

unfoldable pub replace_first : List ℕ → List ℕ → List ℕ → List ℕ
unfolding split_at
replace_first old new s = elim (split_at old s) [ none ↦ s | some (h, r) ↦ h ++ (new ++ r) ]

-- `strings.TrimRight(s, "\n ")`
unfoldable pub trim_blank : List ℕ → List ℕ
trim_blank [] = []
trim_blank (c ∷ s) =
    let rest = trim_blank s in
    elim rest [ [] ↦ if c == b'\n' || c == b' ' then [] else c ∷ [] | d ∷ ds ↦ c ∷ d ∷ ds ]

has_prefix-append : (m s t : List ℕ) → has_prefix m s ≡ true → has_prefix m (s ++ t) ≡ true
unfolding has_prefix
has_prefix-append [] s t h = refl
has_prefix-append (d ∷ m) [] t h = ground arith
has_prefix-append (d ∷ m) (c ∷ s) t h = ground (arith, has_prefix-append m s t)

has_prefix-short : (m s t : List ℕ) → length m ≤ length s → has_prefix m (s ++ t) ≡ has_prefix m s
unfolding has_prefix
has_prefix-short [] s t l = refl
has_prefix-short (d ∷ m) [] t l = absurd (omega arith)
has_prefix-short (d ∷ m) (c ∷ s) t l = ground (arith, has_prefix-short m s t)

has_prefix-le : (m s : List ℕ) → has_prefix m s ≡ true → length m ≤ length s
unfolding has_prefix
has_prefix-le [] s h = omega arith
has_prefix-le (d ∷ m) [] h = ground arith
has_prefix-le (d ∷ m) (c ∷ s) h = ground (arith, has_prefix-le m s)

has_prefix_self : (m t : List ℕ) → has_prefix m (m ++ t) ≡ true
unfolding has_prefix
has_prefix_self [] t = refl
has_prefix_self (d ∷ m) t = ground (arith, has_prefix_self m t)

index_of-le : (m s : List ℕ) (i : ℕ) → index_of m s ≡ some i → i + length m ≤ length s
unfolding index_of
index_of-le m [] i h = ground (arith, has_prefix-le m [])
index_of-le m (c ∷ s) i h = elim (Option-cases (index_of m s)) [
  | inl e ↦ ground (arith, has_prefix-le m (c ∷ s))
  | inr (j, e) ↦ ground (arith, has_prefix-le m (c ∷ s), index_of-le m s j e)
]

-- The first place of a text stays where it is when more follows.
pub index_of-append :
    (m s t : List ℕ) (i : ℕ)
    → index_of m s ≡ some i
    → (index_of m (s ++ t) ≡ some i) × (take i (s ++ t) ≡ take i s)
unfolding index_of
index_of-append [] [] [] i h = ground arith
index_of-append [] [] (c ∷ t) i h = ground arith
index_of-append (d ∷ m) [] t i h = ground arith
index_of-append m (c ∷ s) t i h = elim (Option-cases (index_of m s)) [
  | inl e ↦
      let first : has_prefix m (c ∷ s) ≡ true = ground arith in
      let zero_at : i ≡ 0 = ground arith in
      (ground (arith, has_prefix-append m (c ∷ s) t first), rw zero_at refl)
  | inr (j, e) ↦ elim (Bool-cases (has_prefix m (c ∷ s))) [
    | inl first ↦
        let zero_at : i ≡ 0 = ground arith in
        (ground (arith, has_prefix-append m (c ∷ s) t first), rw zero_at refl)
    | inr later ↦
        let at : i ≡ suc j = ground arith in
        let (p, q) = index_of-append m s t j e in
        let same_prefix = has_prefix-short m (c ∷ s) t (ground (arith, index_of-le m s j e)) in
        (ground arith, rw at (ap (λ r. c ∷ r) q))
  ]
]

-- A text has a place in what ends with it.
pub index_of-end : (m s : List ℕ) → (i : ℕ) × (index_of m (s ++ m) ≡ some i)
unfolding index_of
index_of-end [] [] = (0, refl)
index_of-end (d ∷ m) [] =
    let whole : has_prefix (d ∷ m) (d ∷ m) ≡ true =
      ap (has_prefix (d ∷ m)) (sym (append-nil (d ∷ m))) ∙ has_prefix_self (d ∷ m) [] in
    (0, ground arith)
index_of-end m (c ∷ s) =
    let (i, e) = index_of-end m s in
    if_cases (λ (o : Option ℕ). (k : ℕ) × (o ≡ some k)) (has_prefix m (c ∷ (s ++ m))) _ _
      (λ _. (0, refl)) (λ _. (suc i, ap (Option.map suc) e))
