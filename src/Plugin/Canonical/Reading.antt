-- ===== src/Plugin/Canonical/Reading.antt =====
-- Canonical preimages (crates/continuum-lighter-plugin/src/canonical.rs) and the fields that were put into
-- them, one after another.
use lighter_integration.Base.{
  ℕ, zero, suc, ◌/◌, ◌%◌, ◌^◌, ◌<◌, ◌≡◌, refl, ap, Bytes, List, [], ◌∷◌, ◌++◌, length, All, arith,
  length-append, sym, ◌∙◌,
}
use native.Mathlib.Nat.{pow-suc}
use mathlib.Core.Path.{ap₂}
use lighter_integration.Plugin.Canonical.{
  to_be_bytes, put_u8, put_u16, put_u32, put_u64, put_fixed, put_limbs, put_lighter_hash,
}

-- `w` bytes are written.
pub length-to_be_bytes : (w n : ℕ) → length (to_be_bytes w n) ≡ w
unfolding to_be_bytes
length-to_be_bytes zero n = refl
length-to_be_bytes (suc w) n = omega (
  arith,
  length-to_be_bytes w (n / 256),
  length-append (to_be_bytes w (n / 256)) ((n % 256) ∷ []),
)

-- Two strings that begin with parts of one length are equal part by part.
pub append-injective {ℓ} :
    {A : Type ℓ} (a b c d : List A) → length a ≡ length b → a ++ c ≡ b ++ d → (a ≡ b) × (c ≡ d)
append-injective [] [] c d h e = (refl, e)
append-injective [] (y ∷ b) c d h e = absurd (omega arith)
append-injective (x ∷ a) [] c d h e = absurd (omega arith)
append-injective (x ∷ a) (y ∷ b) c d h e = ground (arith, append-injective a b c d)

pub to_be_bytes-injective :
    (w m n : ℕ) → m < 256 ^ w → n < 256 ^ w → to_be_bytes w m ≡ to_be_bytes w n → m ≡ n
unfolding to_be_bytes
to_be_bytes-injective zero m n hm hn e = omega arith
to_be_bytes-injective (suc w) m n hm hn e =
    let (heads, last) =
      append-injective _ _ _ _
        (length-to_be_bytes w (m / 256) ∙ sym (length-to_be_bytes w (n / 256))) e in
    let low : m % 256 ≡ n % 256 = cc in
    let high : m / 256 ≡ n / 256 =
      to_be_bytes-injective w (m / 256) (n / 256) (omega (arith, pow-suc 256 w))
        (omega (arith, pow-suc 256 w)) heads in
    omega arith

append-injective_last {ℓ} :
    {A : Type ℓ} (a b c d : List A) → length c ≡ length d → a ++ c ≡ b ++ d → (a ≡ b) × (c ≡ d)
append-injective_last {A} a b c d h e =
    append-injective a b c d
      (omega (arith, length-append a c, length-append b d, ap (λ (l : List A). length l) e)) e

-- A buffer that ends in a `w`-byte integer determines the rest of it and the integer.
ends_in_integer :
    (w : ℕ) (a b : Bytes) (m n : ℕ)
    → m < 256 ^ w
    → n < 256 ^ w
    → a ++ to_be_bytes w m ≡ b ++ to_be_bytes w n
    → (a ≡ b) × (m ≡ n)
ends_in_integer w a b m n hm hn e =
    let (rest, last) =
      append-injective_last a b _ _ (length-to_be_bytes w m ∙ sym (length-to_be_bytes w n)) e in
    (rest, to_be_bytes-injective w m n hm hn last)

pub put_u8-injective : (a b : Bytes) (m n : ℕ) → put_u8 a m ≡ put_u8 b n → (a ≡ b) × (m ≡ n)
unfolding put_u8
put_u8-injective a b m n e =
    let (rest, last) = append-injective_last a b (m ∷ []) (n ∷ []) refl e in (rest, cc)

pub put_u16-injective :
    (a b : Bytes) (m n : ℕ)
    → m < 2 ^ 16
    → n < 2 ^ 16
    → put_u16 a m ≡ put_u16 b n
    → (a ≡ b) × (m ≡ n)
unfolding put_u16
put_u16-injective a b m n hm hn = ends_in_integer 2 a b m n hm hn

pub put_u32-injective :
    (a b : Bytes) (m n : ℕ)
    → m < 2 ^ 32
    → n < 2 ^ 32
    → put_u32 a m ≡ put_u32 b n
    → (a ≡ b) × (m ≡ n)
unfolding put_u32
put_u32-injective a b m n hm hn = ends_in_integer 4 a b m n hm hn

pub put_u64-injective :
    (a b : Bytes) (m n : ℕ)
    → m < 2 ^ 64
    → n < 2 ^ 64
    → put_u64 a m ≡ put_u64 b n
    → (a ≡ b) × (m ≡ n)
unfolding put_u64
put_u64-injective a b m n hm hn = ends_in_integer 8 a b m n hm hn

pub put_fixed-injective :
    (a b x y : Bytes) → length x ≡ length y → put_fixed a x ≡ put_fixed b y → (a ≡ b) × (x ≡ y)
unfolding put_fixed
put_fixed-injective a b x y h e = append-injective_last a b x y h e

-- Limbs are `u64`s.
abbrev pub AreWords : List ℕ → Type 0
AreWords = All (λ n. n < 2 ^ 64)

pub put_limbs-injective :
    (a b : Bytes) (xs ys : List ℕ)
    → length xs ≡ length ys
    → AreWords xs
    → AreWords ys
    → put_limbs a xs ≡ put_limbs b ys
    → (a ≡ b) × (xs ≡ ys)
unfolding put_limbs
put_limbs-injective a b [] [] l hx hy e = (e, refl)
put_limbs-injective a b [] (y ∷ ys) l hx hy e = absurd (omega arith)
put_limbs-injective a b (x ∷ xs) [] l hx hy e = absurd (omega arith)
put_limbs-injective a b (x ∷ xs) (y ∷ ys) l hx hy e =
    let (heads, tails) =
      put_limbs-injective (put_u64 a x) (put_u64 b y) xs ys (omega arith) hx.1 hy.1 e in
    let (rest, limb) = put_u64-injective a b x y hx.0 hy.0 heads in
    (rest, ap₂ (λ (n : ℕ) (l : List ℕ). n ∷ l) limb tails)

pub put_lighter_hash-injective :
    (a b : Bytes) (xs ys : List ℕ)
    → length xs ≡ length ys
    → AreWords xs
    → AreWords ys
    → put_lighter_hash a xs ≡ put_lighter_hash b ys
    → (a ≡ b) × (xs ≡ ys)
unfolding put_lighter_hash
put_lighter_hash-injective a b xs ys l hx hy e = put_limbs-injective a b xs ys l hx hy e
