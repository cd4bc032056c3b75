-- ===== src/Plugin/Types/Encoding.antt =====
-- The canonical bytes of items (crates/continuum-lighter-plugin/src/types.rs) and the items.
use lighter_integration.Base.{◌^◌, ◌<◌, ◌≡◌, sym, ◌∙◌, Bool, length, arith}
use lighter_integration.Plugin.Canonical.Reading.{
  AreWords, put_u8-injective, put_u16-injective, put_u32-injective, put_u64-injective,
  put_fixed-injective, put_lighter_hash-injective, put_limbs-injective,
}
use lighter_integration.Plugin.Types.{
  ResolutionV3, resolution_code, DerivedItemV3, derived_bytes, ExecutionItemV3, bool_code,
  execution_bytes,
}

-- The ranges that the field types `[u8; 32]`, `u64`, `u32`, `u16` and `[u64; 4]` give.
pub record IsDerivedItem (item : DerivedItemV3) : Type 0 where
  pub domain_hash : length item.domain_hash ≡ 32
  pub frame_id : item.frame_id < 2 ^ 64
  pub chunk_id : item.chunk_id < 2 ^ 32
  pub tick : item.tick < 2 ^ 64
  pub position : item.position < 2 ^ 32
  pub envelope_hash : length item.envelope_hash ≡ 32
  pub receipt_digest : length item.receipt_digest ≡ 32
  pub cleartext_length : item.cleartext_length < 2 ^ 32
  pub cleartext_limbs : length item.cleartext_hash ≡ 4
  pub cleartext_words : AreWords item.cleartext_hash
  pub terminal_reason : item.terminal_reason < 2 ^ 16

resolution_code-injective : (r s : ResolutionV3) → resolution_code r ≡ resolution_code s → r ≡ s
unfolding resolution_code
resolution_code-injective r s e = ground arith

-- Two derived items of the field ranges with the same canonical bytes are the same item.
pub derived_bytes-injective :
    (a b : DerivedItemV3)
    → IsDerivedItem a
    → IsDerivedItem b
    → derived_bytes a ≡ derived_bytes b
    → a ≡ b
unfolding derived_bytes
derived_bytes-injective a b u v e =
    let (e₁, reason) = put_u16-injective _ _ _ _ u.terminal_reason v.terminal_reason e in
    let (e₂, clear_hash) =
      put_lighter_hash-injective _ _ _ _ (u.cleartext_limbs ∙ sym v.cleartext_limbs)
        u.cleartext_words v.cleartext_words e₁ in
    let (e₃, clear_length) = put_u32-injective _ _ _ _ u.cleartext_length v.cleartext_length e₂ in
    let (e₄, code) = put_u8-injective _ _ _ _ e₃ in
    let (e₅, digest) = put_fixed-injective _ _ _ _ (u.receipt_digest ∙ sym v.receipt_digest) e₄ in
    let (e₆, envelope) = put_fixed-injective _ _ _ _ (u.envelope_hash ∙ sym v.envelope_hash) e₅ in
    let (e₇, position) = put_u32-injective _ _ _ _ u.position v.position e₆ in
    let (e₈, tick) = put_u64-injective _ _ _ _ u.tick v.tick e₇ in
    let (e₉, chunk) = put_u32-injective _ _ _ _ u.chunk_id v.chunk_id e₈ in
    let (e₁₀, frame) = put_u64-injective _ _ _ _ u.frame_id v.frame_id e₉ in
    let (_, domain) = put_fixed-injective _ _ _ _ (u.domain_hash ∙ sym v.domain_hash) e₁₀ in
    λ i. record {
      domain_hash = domain i;
      frame_id = frame i;
      chunk_id = chunk i;
      tick = tick i;
      position = position i;
      envelope_hash = envelope i;
      receipt_digest = digest i;
      resolution = resolution_code-injective a.resolution b.resolution code i;
      cleartext_length = clear_length i;
      cleartext_hash = clear_hash i;
      terminal_reason = reason i;
    }

pub record IsExecutionItem (item : ExecutionItemV3) : Type 0 where
  pub logical_index : item.logical_index < 2 ^ 64
  pub tx_type : item.tx_type < 2 ^ 16
  pub tx_limbs : length item.tx_hash ≡ 5
  pub tx_words : AreWords item.tx_hash
  pub outcome_class : item.outcome_class < 2 ^ 16

pub bool_code-injective : (b c : Bool) → bool_code b ≡ bool_code c → b ≡ c
unfolding bool_code
bool_code-injective b c e = ground arith

-- Two compact execution items of the field ranges with the same canonical bytes are the same item.
execution_bytes-injective :
    (a b : ExecutionItemV3)
    → IsExecutionItem a
    → IsExecutionItem b
    → execution_bytes a ≡ execution_bytes b
    → a ≡ b
unfolding execution_bytes
execution_bytes-injective a b u v e =
    let (e₁, noop) = put_u8-injective _ _ _ _ e in
    let (e₂, class) = put_u16-injective _ _ _ _ u.outcome_class v.outcome_class e₁ in
    let (e₃, hash) =
      put_limbs-injective _ _ _ _ (u.tx_limbs ∙ sym v.tx_limbs) u.tx_words v.tx_words e₂ in
    let (e₄, kind) = put_u16-injective _ _ _ _ u.tx_type v.tx_type e₃ in
    let (_, index) = put_u64-injective _ _ _ _ u.logical_index v.logical_index e₄ in
    λ i. record {
      logical_index = index i;
      tx_type = kind i;
      tx_hash = hash i;
      outcome_class = class i;
      terminal_noop = bool_code-injective a.terminal_noop b.terminal_noop noop i;
    }
