-- ===== src/Sequencer/Identity.antt =====
-- crates/sequencer/src/identity.rs: signatures and addresses. Keccak, ECDSA over secp256k1 and big
-- integers are third-party code: the interface `Primitives`.
pub mod Signing
use lighter_integration.Base.{
  ℕ, ◌+◌, ◌-◌, ◌<◌, ◌≡◌, Bool, false, Bytes, Hash32, bytes_eq, List, [], ◌∷◌, ◌++◌, Option, none,
  some, get_elem?, take, drop, ltb, if◌then◌else◌, codes, length, All,
}

-- A signing key is its bytes; a verifying key is its uncompressed point without the leading byte.
-- `recover_from_prehash` is `Signature::from_slice`, `RecoveryId::from_byte` and
-- `VerifyingKey::recover_from_prehash` together.
pub record Primitives : Type 0 where
  pub keccak256 : Bytes → Hash32
  pub sign_prehash_recoverable : Bytes → Hash32 → Bytes × ℕ
  pub recover_from_prehash : Hash32 → Bytes → ℕ → Option Bytes
  pub verifying_key : Bytes → Bytes
  pub biguint_to_bytes_be : ℕ → Bytes
  pub biguint_from_bytes_be : Bytes → ℕ

-- What ECDSA documents: a fresh signature has 64 bytes and a recovery id below 4, and recovers to
-- the key that made it.
pub record Recovers (primitives : Primitives) : Type 0 where
  pub size :
      (sk : Bytes) (digest : Hash32) → length (primitives.sign_prehash_recoverable sk digest).0 ≡ 64
  pub rid : (sk : Bytes) (digest : Hash32) → (primitives.sign_prehash_recoverable sk digest).1 < 4
  pub recovers :
      (sk : Bytes) (digest : Hash32)
      → primitives.recover_from_prehash digest
          (primitives.sign_prehash_recoverable sk digest).0
          (primitives.sign_prehash_recoverable sk digest).1
        ≡ some (primitives.verifying_key sk)

-- `Sig65`: `r ‖ s ‖ v`
abbrev pub Sig65 : Type 0
Sig65 = Bytes

abbrev pub Address : Type 0
Address = Bytes

module _ (primitives : Primitives) where
  open primitives use {keccak256, sign_prehash_recoverable, recover_from_prehash, verifying_key}

  -- The last 20 bytes of the digest of the point.
  unfoldable pub address_of : Bytes → Address
  address_of vk = drop 12 (keccak256 vk)

  -- `Identity::address`
  unfoldable pub address : Bytes → Address
  unfolding address_of
  address sk = address_of (verifying_key sk)

  unfoldable pub sign_digest : Bytes → Hash32 → Sig65
  sign_digest sk digest =
      let (sig, rid) = sign_prehash_recoverable sk digest in sig ++ (27 + rid) ∷ []

  -- `Identity::sign`
  unfoldable pub sign : Bytes → Bytes → Sig65
  unfolding sign_digest
  sign sk message = sign_digest sk (keccak256 message)

  -- `sig.0[64].checked_sub(27)?` and what follows it
  unfoldable pub recover_with : Hash32 → Bytes → Option ℕ → Option Address
  unfolding address_of
  recover_with digest sig none = none
  recover_with digest sig (some v) =
      if ltb v 27 then none else elim (recover_from_prehash digest sig (v - 27)) [
        | none ↦ none
        | some vk ↦ some (address_of vk)
      ]

  unfoldable pub recover_address : Hash32 → Sig65 → Option Address
  unfolding recover_with
  recover_address digest sig = recover_with digest (take 64 sig) (get_elem? sig 64)

  unfoldable pub verify_signed : Bytes → Sig65 → Address → Bool
  unfolding recover_address
  verify_signed message sig expected = elim (recover_address (keccak256 message) sig) [
    | none ↦ false
    | some a ↦ bytes_eq a expected
  ]
