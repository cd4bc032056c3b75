-- ===== src/Plugin/Hash.antt =====
-- crates/continuum-lighter-plugin/src/hash.rs: `LighterNativeHash`, the hash that the deployment
-- supplies (SHA-256 in the host tests, Poseidon2 of the pinned prover in production). Its two
-- functions are parameters; what is known of them is their output type `[u8; 32]`.
pub mod Chain
use lighter_integration.Base.{ℕ, ◌<◌, ◌≡◌, Bytes, Hash32, List, [], ◌∷◌, ◌++◌, length, All}
use lighter_integration.Plugin.Canonical.{to_be_bytes}

-- A value of type `[u8; 32]`.
pub record IsHash32 (value : Hash32) : Type 0 where
  pub size : length value ≡ 32
  pub bytes : All (λ b. b < 256) value

pub record LighterNativeHash : Type 0 where
  pub hash : Bytes → Bytes → Hash32
  pub hash_fields : Bytes → List ℕ → Hash32
  pub hash_type : (domain payload : Bytes) → IsHash32 (hash domain payload)
  pub hash_fields_type : (domain : Bytes) (fields : List ℕ) → IsHash32 (hash_fields domain fields)

-- `for field in fields { payload.extend_from_slice(&field.to_be_bytes()) }`
unfoldable pub fields_bytes : List ℕ → Bytes
fields_bytes [] = []
fields_bytes (field ∷ fields) = to_be_bytes 8 field ++ fields_bytes fields

-- The trait's default `hash_fields`, over a given `hash`.
unfoldable pub default_hash_fields : (Bytes → Bytes → Hash32) → Bytes → List ℕ → Hash32
unfolding fields_bytes
default_hash_fields hash domain fields =
    hash domain (to_be_bytes 8 (length fields) ++ fields_bytes fields)
