-- ===== src/Prelude/Text.antt =====
-- A text as the list of its code points, for the functions that walk it or compare its order.
use Prim.Native.Nat.{ℕ}
use Prim.Native.Char.{code}
use Prim.Native.String
use mathlib.Core.Path.{◌≡◌, refl}
use mathlib.Core.Bool.{Bool, true, false, ◌&&◌, ◌||◌}
use mathlib.Core.List.{List, [], ◌∷◌}
use native.Mathlib.Omega.{arith}
use pi_mcp.Prelude.Tests.{ltb, leb, ◌==◌, if◌then◌else◌}

abbrev pub codes : Prim.Native.String.String → List ℕ
codes Prim.Native.String.[] = []
codes (Prim.Native.String.◌∷◌ c s) = code c ∷ codes s

abbrev pub joined :
    Prim.Native.String.String → Prim.Native.String.String → Prim.Native.String.String
joined s t = Prim.Native.String.◌++◌ s t

-- `unicode.IsSpace`
abbrev pub is_space : ℕ → Bool
is_space c =
    (leb 9 c && leb c 13)
    || c == 32
    || c == 133
    || c == 160
    || c == 5760
    || (leb 8192 c && leb c 8202)
    || c == 8232
    || c == 8233
    || c == 8239
    || c == 8287
    || c == 12288

abbrev pub alike : List ℕ → List ℕ → Bool
alike [] [] = true
alike [] (d ∷ t) = false
alike (c ∷ s) [] = false
alike (c ∷ s) (d ∷ t) = let rest = alike s t in if c == d then rest else false

pub alike_self : (s : List ℕ) → alike s s ≡ true
alike_self [] = refl
alike_self (c ∷ s) = ground (arith, alike_self s)

pub alike→≡ : (s t : List ℕ) → alike s t ≡ true → s ≡ t
alike→≡ [] [] h = refl
alike→≡ [] (d ∷ t) h = absurd (cc h)
alike→≡ (c ∷ s) [] h = absurd (cc h)
alike→≡ (c ∷ s) (d ∷ t) h = ground (arith, alike→≡ s t)

-- `strings.HasSuffix(s, suffix)`
abbrev pub ends_with : List ℕ → List ℕ → Bool
ends_with [] suffix = alike [] suffix
ends_with (c ∷ s) suffix = alike (c ∷ s) suffix || ends_with s suffix

-- `s > t`. The order of the code points is that of the bytes of their encoding.
unfoldable pub after : List ℕ → List ℕ → Bool
after [] t = false
after (c ∷ s) [] = true
after (c ∷ s) (d ∷ t) =
    let rest = after s t in if ltb d c then true else if ltb c d then false else rest

pub after_asym : (s t : List ℕ) → after s t ≡ true → after t s ≡ false
unfolding after
after_asym [] t h = ground arith
after_asym (c ∷ s) [] h = refl
after_asym (c ∷ s) (d ∷ t) h = ground (arith, after_asym s t)

-- What is not after a text that is not after a third one is not after that one.
pub after_trans : (s t u : List ℕ) → after s t ≡ false → after t u ≡ false → after s u ≡ false
unfolding after
after_trans [] t u h k = refl
after_trans (c ∷ s) [] u h k = ground arith
after_trans (c ∷ s) (d ∷ t) [] h k = ground arith
after_trans (c ∷ s) (d ∷ t) (e ∷ u) h k = ground (arith, after_trans s t u)
