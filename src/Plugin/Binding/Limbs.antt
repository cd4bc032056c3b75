-- ===== src/Plugin/Binding/Limbs.antt =====
-- The big-endian limbs of a digest (`hash32_u32_limbs`, `hash32_u64_limbs` of
-- crates/continuum-lighter-plugin/src/binding.rs).
use mathlib.Core.Path.{ap₂}
use lighter_integration.Base.{
  ℕ, zero, suc, ◌+◌, ◌*◌, ◌<◌, ◌≡◌, refl, ap, sym, ◌∙◌, Bytes, Hash32, [], ◌∷◌, ◌++◌, length, take,
  drop, All, All-of_take, All-of_drop, take-append-drop, length-take, length-drop, arith,
}
use lighter_integration.Plugin.Hash.{IsHash32}
use lighter_integration.Plugin.Binding.{from_be_bytes, limbs, hash32_u32_limbs, hash32_u64_limbs}

abbrev AreBytes : Bytes → Type 0
AreBytes = All (λ b. b < 256)

from_be_bytes-injective :
    (m n : ℕ) (xs ys : Bytes)
    → length xs ≡ length ys
    → AreBytes xs
    → AreBytes ys
    → from_be_bytes m xs ≡ from_be_bytes n ys
    → (m ≡ n) × (xs ≡ ys)
unfolding from_be_bytes
from_be_bytes-injective m n [] [] l hx hy e = (e, refl)
from_be_bytes-injective m n [] (y ∷ ys) l hx hy e = absurd (omega arith)
from_be_bytes-injective m n (x ∷ xs) [] l hx hy e = absurd (omega arith)
from_be_bytes-injective m n (x ∷ xs) (y ∷ ys) l hx hy e =
    let (heads, tails) =
      from_be_bytes-injective (m * 256 + x) (n * 256 + y) xs ys (omega arith) hx.1 hy.1 e in
    (
      omega (arith, hx.0, hy.0),
      ap₂ (λ (h : ℕ) (t : Bytes). h ∷ t) (omega (arith, hx.0, hy.0)) tails,
    )

limbs-injective :
    (count w : ℕ) (xs ys : Bytes)
    → length xs ≡ count * w
    → length ys ≡ count * w
    → AreBytes xs
    → AreBytes ys
    → limbs count w xs ≡ limbs count w ys
    → xs ≡ ys
unfolding limbs
limbs-injective zero w [] [] lx ly hx hy e = refl
limbs-injective zero w (x ∷ xs) ys lx ly hx hy e = absurd (omega arith)
limbs-injective zero w [] (y ∷ ys) lx ly hx hy e = absurd (omega arith)
limbs-injective (suc count) w xs ys lx ly hx hy e =
    let front : take w xs ≡ take w ys =
      (from_be_bytes-injective 0 0 (take w xs) (take w ys)
        (omega (arith, length-take w xs, length-take w ys)) (All-of_take _ w xs hx)
        (All-of_take _ w ys hy) (cc)).1 in
    let back : drop w xs ≡ drop w ys =
      limbs-injective count w (drop w xs) (drop w ys) (omega (arith, length-drop w xs))
        (omega (arith, length-drop w ys)) (All-of_drop _ w xs hx) (All-of_drop _ w ys hy) (cc) in
    sym (take-append-drop w xs) ∙ ap₂ (λ (a b : Bytes). a ++ b) front back ∙ take-append-drop w ys

length-limbs : (count w : ℕ) (xs : Bytes) → length (limbs count w xs) ≡ count
unfolding limbs
length-limbs zero w xs = refl
length-limbs (suc count) w xs = ap suc (length-limbs count w (drop w xs))

pub length-u32_limbs : (d : Hash32) → length (hash32_u32_limbs d) ≡ 8
unfolding hash32_u32_limbs
length-u32_limbs d = length-limbs 8 4 d

pub length-u64_limbs : (d : Hash32) → length (hash32_u64_limbs d) ≡ 4
unfolding hash32_u64_limbs
length-u64_limbs d = length-limbs 4 8 d

pub hash32_u32_limbs-injective :
    (d d' : Hash32) → IsHash32 d → IsHash32 d' → hash32_u32_limbs d ≡ hash32_u32_limbs d' → d ≡ d'
unfolding hash32_u32_limbs
hash32_u32_limbs-injective d d' h h' e = limbs-injective 8 4 d d' h.size h'.size h.bytes h'.bytes e

pub hash32_u64_limbs-injective :
    (d d' : Hash32) → IsHash32 d → IsHash32 d' → hash32_u64_limbs d ≡ hash32_u64_limbs d' → d ≡ d'
unfolding hash32_u64_limbs
hash32_u64_limbs-injective d d' h h' e = limbs-injective 4 8 d d' h.size h'.size h.bytes h'.bytes e
