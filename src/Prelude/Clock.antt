-- ===== src/Prelude/Clock.antt =====
-- Go's time.Time and time.Duration. A time is a number of nanoseconds since the zero time, so that
-- `IsZero` is a test against 0. A duration is signed and saturates at 64 bits, as in `Time.Sub`.
use Prim.Native.Nat.{ℕ, suc, ◌-◌}
use native.Mathlib.Decide.{ℕ_discrete}
use mathlib.Core.Path.{◌≡◌, sym, ap}
use mathlib.Core.Logic.{ite, dite}
use mathlib.Core.Bool.{Bool, true, false}
use pi_mcp.Prelude.Tests.{ltb, leb, if◌then◌else◌}

-- `negsuc n` is -(n + 1).
pub data ℤ : Type 0 where
  pos : ℕ → ℤ
  negsuc : ℕ → ℤ

pos_inj : (m n : ℕ) → pos m ≡ pos n → m ≡ n
pos_inj m n p = cc

negsuc_inj : (m n : ℕ) → negsuc m ≡ negsuc n → m ≡ n
negsuc_inj m n p = cc

pos-ne-negsuc : (m n : ℕ) → pos m ≡ negsuc n → ⊥
pos-ne-negsuc m n p = cc

unfoldable pub ℤ_dec : Discrete ℤ
unfolding pos_inj negsuc_inj pos-ne-negsuc
ℤ_dec (pos m) (pos n) =
    dite (ℕ_discrete m n) (λ p. yes (ap pos p)) (λ n'. no (λ p. n' (pos_inj m n p)))
ℤ_dec (pos m) (negsuc n) = no (pos-ne-negsuc m n)
ℤ_dec (negsuc m) (pos n) = no (λ p. pos-ne-negsuc n m (sym p))
ℤ_dec (negsuc m) (negsuc n) =
    dite (ℕ_discrete m n) (λ p. yes (ap negsuc p)) (λ n'. no (λ p. n' (negsuc_inj m n p)))

-- `a == b` on Go integers.
abbrev pub same_int : ℤ → ℤ → Bool
same_int a b = ite (ℤ_dec a b) true false

-- The largest int64.
abbrev pub max_duration : ℕ
max_duration = 9223372036854775807

abbrev pub saturate : ℕ → ℕ
saturate n = if leb n max_duration then n else max_duration

-- `now.Sub(t)`
unfoldable pub sub_time : ℕ → ℕ → ℤ
sub_time now t = if leb t now then pos (saturate (now - t)) else negsuc (saturate (t - now - 1))

-- `d > bound`, for a bound that is not negative.
unfoldable pub exceeds : ℤ → ℕ → Bool
exceeds (pos n) bound = ltb bound n
exceeds (negsuc n) bound = false

-- `d.Abs()`
unfoldable pub abs : ℤ → ℕ
abs (pos n) = n
abs (negsuc n) = saturate (suc n)

abbrev pub second : ℕ
second = 1000000000

abbrev pub minute : ℕ
minute = 60000000000
