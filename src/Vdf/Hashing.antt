-- ===== src/Vdf/Hashing.antt =====
-- What crates/vdf takes of other crates (SHA-256, ChaCha20-Poly1305, the bytes of big integers), and
-- the hash into the group of crates/vdf/src/posq.rs.
use lighter_integration.Base.{
  ℕ, zero, suc, ◌+◌, ◌*◌, ◌%◌, ◌<◌, ◌≡◌, Bytes, [], ◌++◌, Option, some, length, codes,
}
use lighter_integration.Plugin.Canonical.{to_be_bytes}
use lighter_integration.Vdf.Posq.{Group}
use native.Mathlib.Nat.{mod-lt}

-- `seal` and `unseal` take the key, the nonce, the message or the ciphertext, and the associated data.
pub record Crypto : Type 0 where
  pub sha256 : Bytes → Bytes
  pub seal : Bytes → Bytes → Bytes → Bytes → Option Bytes
  pub unseal : Bytes → Bytes → Bytes → Bytes → Option Bytes
  pub to_bytes_be : ℕ → Bytes
  pub from_bytes_be : Bytes → ℕ

-- The AEAD gives back what it sealed under the same key, nonce and associated data.
pub record IsAead (crypto : Crypto) : Type 0 where
  pub unseal-seal :
      (key nonce message aad : Bytes) {body : Bytes}
      → crypto.seal key nonce message aad ≡ some body
      → crypto.unseal key nonce body aad ≡ some message

-- `for counter in from..from + count`: the hashes, one after another.
unfoldable pub hash_blocks : (ℕ → Bytes) → ℕ → ℕ → Bytes
hash_blocks hash zero from = []
hash_blocks hash (suc count) from = hash from ++ hash_blocks hash count (from + 1)

module _ (crypto : Crypto) where
  open crypto use {sha256, from_bytes_be}

  -- the preimage of one block
  unfoldable pub group_block : Bytes → Bytes → ℕ → Bytes
  group_block domain input counter = sha256 (
      codes "posq-hash-to-group"
      ++ to_be_bytes 8 (length domain)
      ++ domain
      ++ to_be_bytes 4 counter
      ++ input)

  -- `Group::to_qr`
  unfoldable pub to_qr : Group → ℕ → ℕ
  to_qr group x = x * x % group.modulus

  -- `Group::hash_to_group`
  unfoldable pub hash_to_group : Group → Bytes → Bytes → ℕ
  unfolding hash_blocks group_block
  hash_to_group group domain input =
      let x = from_bytes_be (hash_blocks (group_block domain input) 9 0) % group.modulus in
      x * x % group.modulus

  pub hash_to_group-lt :
      (group : Group) (domain input : Bytes)
      → 0 < group.modulus
      → hash_to_group group domain input < group.modulus
  unfolding hash_to_group
  hash_to_group-lt group domain input pos = mod-lt _ pos
