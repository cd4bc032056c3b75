-- ===== src/Plugin/Types.antt =====
-- crates/continuum-lighter-plugin/src/types.rs: the logical items of the protected stream and their
-- canonical bytes. A `[u64; n]` is a list of numbers; its length is a premise where it matters.
pub mod Encoding
use lighter_integration.Base.{ℕ, Bool, true, false, Bytes, Hash32, List, [], ◌∷◌}
use lighter_integration.Plugin.Canonical.{
  put_u8, put_u16, put_u32, put_u64, put_fixed, put_lighter_hash, put_limbs,
}

abbrev pub LighterHash : Type 0
LighterHash = List ℕ

pub data ResolutionV3 : Type 0 where
  clear bad_aead bad_encoding l1_cancelled : ResolutionV3

-- `resolution as u8`, `resolution as u16`
unfoldable pub resolution_code : ResolutionV3 → ℕ
resolution_code clear = 0
resolution_code bad_aead = 1
resolution_code bad_encoding = 2
resolution_code l1_cancelled = 3

pub record DerivedItemV3 : Type 0 where
  pub domain_hash : Hash32
  pub frame_id : ℕ
  pub chunk_id : ℕ
  pub tick : ℕ
  pub position : ℕ
  pub envelope_hash : Hash32
  pub receipt_digest : Hash32
  pub resolution : ResolutionV3
  pub cleartext_length : ℕ
  pub cleartext_hash : LighterHash
  pub terminal_reason : ℕ

-- `DerivedItemV3::canonical_bytes`
unfoldable pub derived_bytes : DerivedItemV3 → Bytes
derived_bytes item =
    let out = put_fixed [] item.domain_hash in
    let out = put_u64 out item.frame_id in
    let out = put_u32 out item.chunk_id in
    let out = put_u64 out item.tick in
    let out = put_u32 out item.position in
    let out = put_fixed out item.envelope_hash in
    let out = put_fixed out item.receipt_digest in
    let out = put_u8 out (resolution_code item.resolution) in
    let out = put_u32 out item.cleartext_length in
    let out = put_lighter_hash out item.cleartext_hash in put_u16 out item.terminal_reason

pub record ExecutionItemV3 : Type 0 where
  pub logical_index : ℕ
  pub tx_type : ℕ
  pub tx_hash : List ℕ
  pub outcome_class : ℕ
  pub terminal_noop : Bool

-- `b as u8`, `b as u64`
unfoldable pub bool_code : Bool → ℕ
bool_code true = 1
bool_code false = 0

-- `ExecutionItemV3::canonical_bytes`
unfoldable pub execution_bytes : ExecutionItemV3 → Bytes
execution_bytes item =
    let out = put_u64 [] item.logical_index in
    let out = put_u16 out item.tx_type in
    let out = put_limbs out item.tx_hash in
    let out = put_u16 out item.outcome_class in put_u8 out (bool_code item.terminal_noop)
