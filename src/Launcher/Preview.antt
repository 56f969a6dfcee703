-- ===== src/Launcher/Preview.antt =====
-- The preview of the authoring file against a single cut of the whole authored text.
use pi_mcp.Prelude.{
  ℕ, zero, suc, ◌+◌, ◌-◌, ◌≤◌, ◌≡◌, refl, sym, ap, ◌∙◌, inl, inr, false, [], ◌∷◌, ◌++◌, arith, leb,
  if◌then◌else◌, length, drop, length-append, Bool-cases,
}
use pi_mcp.Config.{max_authoring_preview_bytes}
use pi_mcp.Model.{Bytes}
use pi_mcp.RunStore.Preview.{is_continuation}
use pi_mcp.Launcher.{skip_continuation, cut_front}

-- A text that is empty or starts a rune, as every text that JSON decodes to.
abbrev pub StartsRune : Bytes → Type 0
StartsRune [] = Unit {0}
StartsRune (b ∷ s) = is_continuation b ≡ false

skip-le : (q : Bytes) → length (skip_continuation q) ≤ length q
unfolding skip_continuation
skip-le [] = omega arith
skip-le (b ∷ q) = ground (arith, skip-le q)

skip-StartsRune : (s : Bytes) → StartsRune s → skip_continuation s ≡ s
unfolding skip_continuation
skip-StartsRune [] h = refl
skip-StartsRune (b ∷ s) h = ground arith

-- The bytes that a skip drops.
abbrev skipped : Bytes → ℕ
skipped q = length q - length (skip_continuation q)

-- A drop and a skip, of a text whose front was skipped before.
skip-drop :
    (q s : Bytes) (k : ℕ)
    → StartsRune s
    → (if leb k (skipped q)
        then skip_continuation q ++ s
        else skip_continuation (drop (k - skipped q) (skip_continuation q ++ s)))
      ≡ skip_continuation (drop k (q ++ s))
unfolding skip_continuation
skip-drop [] s zero h = sym (skip-StartsRune s h)
skip-drop [] s (suc k) h = ground arith
skip-drop (b ∷ q) s zero h = elim (Bool-cases (is_continuation b)) [
  | inl inside ↦ ground (arith, skip-drop q s 0 h, skip-le q)
  | inr first ↦ ground arith
]
skip-drop (b ∷ q) s (suc k) h = elim (Bool-cases (is_continuation b)) [
  | inl inside ↦ ground (arith, skip-drop q s k h, skip-le q)
  | inr first ↦ ground arith
]

drop-nil : (i : ℕ) → drop {A = ℕ} i [] ≡ []
drop-nil zero = refl
drop-nil (suc i) = refl

drop_twice : (i j : ℕ) (xs : Bytes) → drop i (drop j xs) ≡ drop (j + i) xs
drop_twice i zero xs = ap (λ n. drop n xs) (omega arith)
drop_twice i (suc j) [] = drop-nil i ∙ sym (drop-nil (suc j + i))
drop_twice i (suc j) (x ∷ xs) =
    let e : suc (j + i) ≡ suc j + i = omega arith in drop_twice i j xs ∙ ap (λ n. drop n (x ∷ xs)) e

drop-append : (i : ℕ) (xs ys : Bytes) → i ≤ length xs → drop i (xs ++ ys) ≡ drop i xs ++ ys
drop-append zero xs ys h = refl
drop-append (suc i) [] ys h = absurd (omega arith)
drop-append (suc i) (x ∷ xs) ys h = drop-append i xs ys (omega arith)

length-drop : (i : ℕ) (xs : Bytes) → length (drop i xs) ≡ length xs - i
length-drop zero xs = omega arith
length-drop (suc i) [] = omega arith
length-drop (suc i) (x ∷ xs) = omega (arith, length-drop i xs)

-- A text of more than the limit, as what a cut leaves out and what it looks at.
cut_long :
    (a : Bytes)
    → leb (length a) max_authoring_preview_bytes ≡ false
    → let q = drop (length a - max_authoring_preview_bytes) a in
      (cut_front a ≡ skip_continuation q) × (length q ≡ max_authoring_preview_bytes)
unfolding cut_front
cut_long a long =
    (ground arith, ground (arith, length-drop (length a - max_authoring_preview_bytes) a))

-- A cut of what was cut before and what follows is a cut of the whole.
pub cut_front_again :
    (a s : Bytes) → StartsRune s → cut_front (cut_front a ++ s) ≡ cut_front (a ++ s)
unfolding cut_front
cut_front_again a s h = elim (Bool-cases (leb (length a) max_authoring_preview_bytes)) [
  | inl short ↦ rw short refl
  | inr long ↦
      let cut = length a - max_authoring_preview_bytes in
      let q = drop cut a in
      let (p, l) = cut_long a long in
      let again : cut_front (skip_continuation q ++ s) ≡ (
          if leb (length s) (skipped q)
          then skip_continuation q ++ s
          else skip_continuation (drop (length s - skipped q) (skip_continuation q ++ s))) =
        ground (arith, skip-le q, length-append (skip_continuation q) s) in
      let n : length (a ++ s) - max_authoring_preview_bytes ≡ cut + length s =
        ground (arith, length-append a s) in
      let whole : cut_front (a ++ s)
          ≡ skip_continuation (drop (length (a ++ s) - max_authoring_preview_bytes) (a ++ s)) =
        ground (arith, length-append a s) in
      let pieces : drop (cut + length s) (a ++ s) ≡ drop (length s) (q ++ s) =
        sym (drop_twice (length s) cut (a ++ s))
        ∙ ap (drop (length s)) (drop-append cut a s (omega arith)) in
      ap (λ r. cut_front (r ++ s)) p
      ∙ again
      ∙ skip-drop q s (length s) h
      ∙ sym (whole ∙ ap (λ m. skip_continuation (drop m (a ++ s))) n ∙ ap skip_continuation pieces)
]
