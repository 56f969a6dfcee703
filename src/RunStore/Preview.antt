-- ===== src/RunStore/Preview.antt =====
-- internal/runstore/intermediate.go, truncatePreview: a text clipped between two runes. A text is the
-- list of its bytes.
use pi_mcp.Prelude.{
  ℕ, zero, suc, ◌/◌, ◌≤◌, ◌<◌, ◌≡◌, ◌⊎◌, inl, inr, refl, Bool, true, false, [], ◌∷◌, arith,
  Bool-cases, if_cases, ap, sym, ◌∙◌, leb, ◌==◌, if◌then◌else◌, length, take,
}
use pi_mcp.Model.{Bytes}

-- `s[i]`, for an index in range.
unfoldable pub byte_at : Bytes → ℕ → ℕ
byte_at [] i = 0
byte_at (b ∷ s) zero = b
byte_at (b ∷ s) (suc i) = byte_at s i

-- `b & 0xC0 == 0x80`, for a byte.
abbrev pub is_continuation : ℕ → Bool
is_continuation b = b / 64 == 2

unfoldable pub back_up : Bytes → ℕ → ℕ
back_up s zero = zero
back_up s (suc cut) =
    let rest = back_up s cut in if is_continuation (byte_at s (suc cut)) then rest else suc cut

-- A length of 0 stands for every value that is not positive.
unfoldable pub truncate_preview : Bytes → ℕ → Bytes
unfolding back_up
truncate_preview s n = if n == 0 then [] else if leb (length s) n then s else take (back_up s n) s

back_up-le : (s : Bytes) (n : ℕ) → back_up s n ≤ n
unfolding back_up
back_up-le s zero = omega arith
back_up-le s (suc n) = ground (arith, back_up-le s n)

-- The bytes between the cut and the limit continue a rune.
back_up-tight :
    (s : Bytes) (n i : ℕ) → back_up s n < i → i ≤ n → is_continuation (byte_at s i) ≡ true
unfolding back_up
back_up-tight s zero i h k = absurd (omega arith)
back_up-tight s (suc n) i h k = elim (Bool-cases (leb i n)) [
  | inl inside ↦ ground (arith, back_up-tight s n i)
  | inr last ↦ let p : i ≡ suc n = ground arith in rw p (ground (arith, back_up-le s n))
]

-- The byte at the cut starts a rune, if the cut is not 0.
back_up-starts :
    (s : Bytes) (n : ℕ) → (back_up s n ≡ 0) ⊎ (is_continuation (byte_at s (back_up s n)) ≡ false)
unfolding back_up
back_up-starts s zero = inl refl
back_up-starts s (suc n) =
    if_cases (λ c. (c ≡ 0) ⊎ (is_continuation (byte_at s c) ≡ false))
      (is_continuation (byte_at s (suc n))) _ _ (λ _. back_up-starts s n) inr

length-take : (n : ℕ) (s : Bytes) → n ≤ length s → length (take n s) ≡ n
length-take zero s h = refl
length-take (suc n) [] h = absurd (omega arith)
length-take (suc n) (b ∷ s) h = ap suc (length-take n s (omega arith))

-- A text of more than the given length is clipped.
clipped :
    (s : Bytes) (n : ℕ)
    → n < length s
    → (truncate_preview s n ≡ take (back_up s n) s) × (length (truncate_preview s n) ≡ back_up s n)
unfolding truncate_preview back_up
clipped s zero h = (refl, refl)
clipped s (suc n) h =
    let p : truncate_preview s (suc n) ≡ take (back_up s (suc n)) s = ground arith in
    (p, ap length p ∙ length-take _ s (ground (arith, back_up-le s (suc n))))

-- A text of more than the given length is clipped to a prefix of at most that length, and the first
-- byte left out starts a rune, unless the prefix is empty.
pub truncate_preview_lem :
    (s : Bytes) (n : ℕ)
    → n < length s
    → let cut = length (truncate_preview s n) in
      (truncate_preview s n ≡ take cut s)
      × (cut ≤ n)
      × ((cut ≡ 0) ⊎ (is_continuation (byte_at s cut) ≡ false))
truncate_preview_lem s n h =
    let (p, q) = clipped s n h in
    (p ∙ ap (λ c. take c s) (sym q), ground (arith, back_up-le s n), rw q (back_up-starts s n))

-- Where a text of more than the given length is clipped, every byte from behind the cut to that
-- length continues a rune.
pub truncate_preview_tight :
    (s : Bytes) (n i : ℕ)
    → n < length s
    → length (truncate_preview s n) < i
    → i ≤ n
    → is_continuation (byte_at s i) ≡ true
truncate_preview_tight s n i h k l = back_up-tight s n i (ground (arith, clipped s n h)) l
