-- ===== src/Plugin/Canonical.antt =====
-- crates/continuum-lighter-plugin/src/canonical.rs: the preimage helpers. `&mut Vec<u8>` is the
-- buffer that a helper takes and returns.
pub mod Reading
use Prim.Native.Nat.{suc}
use lighter_integration.Base.{
  ℕ, zero, ◌+◌, ◌*◌, ◌/◌, ◌%◌, ◌^◌, Bytes, List, [], ◌∷◌, ◌++◌, Option, none, some, length, ltb,
  if◌then◌else◌,
}

-- `value.to_be_bytes()` of an integer of `w` bytes: the most significant byte first.
unfoldable pub to_be_bytes : ℕ → ℕ → Bytes
to_be_bytes zero n = []
to_be_bytes (suc w) n = to_be_bytes w (n / 256) ++ (n % 256) ∷ []

unfoldable pub put_u8 : Bytes → ℕ → Bytes
put_u8 out value = out ++ value ∷ []

unfoldable pub put_u16 : Bytes → ℕ → Bytes
put_u16 out value = out ++ to_be_bytes 2 value

unfoldable pub put_u32 : Bytes → ℕ → Bytes
put_u32 out value = out ++ to_be_bytes 4 value

unfoldable pub put_u64 : Bytes → ℕ → Bytes
put_u64 out value = out ++ to_be_bytes 8 value

unfoldable pub put_fixed : Bytes → Bytes → Bytes
put_fixed out value = out ++ value

-- `for limb in value { put_u64(out, *limb) }`
unfoldable pub put_limbs : Bytes → List ℕ → Bytes
put_limbs out [] = out
put_limbs out (limb ∷ limbs) = put_limbs (put_u64 out limb) limbs

-- `&[u64; 4]`
unfoldable pub put_lighter_hash : Bytes → List ℕ → Bytes
unfolding put_limbs
put_lighter_hash out value = put_limbs out value

-- `none` is the panic "canonical byte string exceeds u32".
unfoldable pub put_bytes : Bytes → Bytes → Option Bytes
put_bytes out value =
    if ltb (length value) (2 ^ 32) then some (put_u32 out (length value) ++ value) else none
