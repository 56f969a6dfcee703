-- ===== src/Prelude/Dict.antt =====
-- A Go map with string keys, as an association list. A write keeps the place of its key.
use Prim.Native.Nat.{ℕ, ◌+◌}
use Prim.Native.String.{String}
use mathlib.Core.Path.{◌≡◌, refl}
use mathlib.Core.Bool.{Bool, true, false}
use mathlib.Core.Option.{Option, none, some}
use mathlib.Core.List.{List, [], ◌∷◌}
use native.Mathlib.Omega.{arith}
use pi_mcp.Prelude.Tests.{same, if◌then◌else◌}

abbrev pub Dict {ℓ} : Type ℓ → Type ℓ
Dict V = List (String × V)

abbrev pub one_if : Bool → ℕ
one_if true = 1
one_if false = 0

module _ {ℓ} {V : Type ℓ} where
  unfoldable pub lookup : String → Dict V → Option V
  lookup k [] = none
  lookup k ((j, v) ∷ d) = if same j k then some v else lookup k d

  -- `m[k] = v`
  unfoldable pub insert : String → V → Dict V → Dict V
  insert k v [] = (k, v) ∷ []
  insert k v ((j, w) ∷ d) = if same j k then (k, v) ∷ d else (j, w) ∷ insert k v d

  -- `delete(m, k)`
  unfoldable pub erase : String → Dict V → Dict V
  erase k [] = []
  erase k ((j, w) ∷ d) = if same j k then d else (j, w) ∷ erase k d

  unfoldable pub count : (V → Bool) → Dict V → ℕ
  count p [] = 0
  count p ((j, v) ∷ d) = one_if (p v) + count p d

  pub lookup-insert :
      (j k : String) (v : V) (d : Dict V)
      → lookup j (insert k v d) ≡ (if same k j then some v else lookup j d)
  unfolding lookup insert
  lookup-insert j k v [] = refl
  lookup-insert j k v ((i, w) ∷ d) = ground (arith, lookup-insert j k v d)

  pub lookup-insert_self : (k : String) (v : V) (d : Dict V) → lookup k (insert k v d) ≡ some v
  lookup-insert_self k v d = ground (arith, lookup-insert k k v d)

  -- A delete undoes the write of a new key.
  pub erase-insert :
      (k : String) (v : V) (d : Dict V) → lookup k d ≡ none → erase k (insert k v d) ≡ d
  unfolding lookup insert erase
  erase-insert k v [] h = ground arith
  erase-insert k v ((i, w) ∷ d) h = ground (arith, erase-insert k v d)

  pub count-insert :
      (p : V → Bool) (k : String) (v w : V) (d : Dict V)
      → lookup k d ≡ some w
      → count p (insert k v d) + one_if (p w) ≡ count p d + one_if (p v)
  unfolding lookup insert count
  count-insert p k v w [] h = cc
  count-insert p k v w ((i, u) ∷ d) h = ground (arith, count-insert p k v w d)

  pub count-insert_new :
      (p : V → Bool) (k : String) (v : V) (d : Dict V)
      → lookup k d ≡ none
      → count p (insert k v d) ≡ count p d + one_if (p v)
  unfolding lookup insert count
  count-insert_new p k v [] h = omega arith
  count-insert_new p k v ((i, u) ∷ d) h = ground (arith, count-insert_new p k v d)

  -- The second of two writes of a key counts.
  pub insert_twice : (k : String) (v w : V) (d : Dict V) → insert k v (insert k w d) ≡ insert k v d
  unfolding insert
  insert_twice k v w [] = ground arith
  insert_twice k v w ((i, u) ∷ d) = ground (arith, insert_twice k v w d)

  abbrev pub NodupKeys : Dict V → Type ℓ
  NodupKeys [] = Unit
  NodupKeys ((k, v) ∷ d) = (lookup k d ≡ none) × NodupKeys d

  pub insert-NodupKeys : (k : String) (v : V) (d : Dict V) → NodupKeys d → NodupKeys (insert k v d)
  unfolding insert lookup
  insert-NodupKeys k v [] u = (refl, tt)
  insert-NodupKeys k v ((j, w) ∷ d) u =
      ground (arith, insert-NodupKeys k v d u.1, lookup-insert j k v d)

  -- What holds at the entry of every key holds of the rest.
  pub lookup-tail :
      (j k : String) (v w : V) (d : Dict V)
      → lookup j d ≡ none
      → lookup k d ≡ some w
      → lookup k ((j, v) ∷ d) ≡ some w
  unfolding lookup
  lookup-tail j k v w d fresh h = ground arith
