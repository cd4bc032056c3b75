-- ===== src/Base/ByteStrings.antt =====
-- Byte strings and fixed-size arrays (`[u8; 32]`, `Vec<u8>`, `&[u8]`), and their comparison.
use Prim.Native.Nat.{ℕ}
use mathlib.Core.Path.{◌≡◌, refl}
use mathlib.Core.Logic.{◌↔◌, ◌⊎◌, inl, inr, ◌≢◌}
use mathlib.Core.Bool.{Bool, true, false, ◌&&◌}
use mathlib.Core.List.{List, [], ◌∷◌}
use native.Mathlib.Omega.{arith}
use lighter_integration.Base.Tests.{◌==◌, Bool-cases}

abbrev pub Bytes : Type 0
Bytes = List ℕ

-- A `[u8; 32]`: the length is a premise where a statement needs it.
abbrev pub Hash32 : Type 0
Hash32 = Bytes

unfoldable pub bytes_eq : Bytes → Bytes → Bool
bytes_eq [] [] = true
bytes_eq (a ∷ as') (b ∷ bs) = a == b && bytes_eq as' bs
bytes_eq _ _ = false

bytes_eq_sound : (a b : Bytes) → bytes_eq a b ≡ true → a ≡ b
unfolding bytes_eq
bytes_eq_sound [] [] h = refl
bytes_eq_sound (a ∷ l) (b ∷ m) h = ground (arith, bytes_eq_sound l m)
bytes_eq_sound [] (b ∷ m) h = cc
bytes_eq_sound (a ∷ l) [] h = cc

pub bytes_eq_refl : (a : Bytes) → bytes_eq a a ≡ true
unfolding bytes_eq
bytes_eq_refl [] = refl
bytes_eq_refl (a ∷ l) = ground (arith, bytes_eq_refl l)

pub bytes_eq_iff : (a b : Bytes) → (bytes_eq a b ≡ true) ↔ (a ≡ b)
bytes_eq_iff a b = (bytes_eq_sound a b, λ e. rw (← e) (bytes_eq_refl a))

pub bytes_dec : (a b : Bytes) → (a ≡ b) ⊎ (a ≢ b)
bytes_dec a b = elim (Bool-cases (bytes_eq a b)) [
  | inl same ↦ inl (bytes_eq_sound a b same)
  | inr other ↦ inr (λ e. cc (other, (bytes_eq_iff a b).1 e))
]
