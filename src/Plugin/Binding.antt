-- ===== src/Plugin/Binding.antt =====
-- crates/continuum-lighter-plugin/src/binding.rs: the binding inputs, `C_bind`, and the two roots.
pub mod Limbs
pub mod Inputs
pub mod Stream
pub mod Commitment
use lighter_integration.Base.{
  ℕ, zero, suc, ◌+◌, ◌-◌, ◌*◌, ◌/◌, ◌%◌, ◌^◌, Bytes, Hash32, List, [], ◌∷◌, ◌++◌, length, codes,
  take, drop, Result, ok, err, ◌>>=◌,
}
use lighter_integration.Plugin.Canonical.{put_fixed, put_u64}
use lighter_integration.Plugin.Types.{DerivedItemV3, ExecutionItemV3, bool_code}
use lighter_integration.Plugin.Hash.{LighterNativeHash}
use lighter_integration.Plugin.Accumulator
use lighter_integration.Plugin.Accumulator.{AccumulatorError, OrderedAccumulator}

abbrev pub binding_domain : Bytes
binding_domain = codes "LIGHTER_CONTINUUM_BATCH_V3"

abbrev pub execution_stream_init_domain : Bytes
execution_stream_init_domain = codes "CONTINUUM_LIGHTER_EXEC_INIT_V3_1"

abbrev pub execution_stream_step_domain : Bytes
execution_stream_step_domain = codes "CONTINUUM_LIGHTER_EXEC_STEP_V3_1"

pub record BindingInputsV3 : Type 0 where
  pub domain_hash : Hash32
  pub epoch : ℕ
  pub old_global_cursor : ℕ
  pub new_global_cursor : ℕ
  pub old_transcript_root : Hash32
  pub new_transcript_root : Hash32
  pub frame_plan_root : Hash32
  pub ordered_item_root : Hash32
  pub execution_stream_root : Hash32
  pub ordered_item_count : ℕ
  pub priority_start : ℕ
  pub priority_end : ℕ
  pub priority_root : Hash32
  pub oracle_snapshot_root : Hash32
  pub protocol_event_root : Hash32
  pub l1_origin_hash : Hash32
  pub policy_hash : Hash32
  pub decryption_module_id : Hash32

-- `BindingInputsV3::canonical_bytes`
unfoldable pub binding_bytes : BindingInputsV3 → Bytes
binding_bytes b =
    let out = put_fixed [] b.domain_hash in
    let out = put_u64 out b.epoch in
    let out = put_u64 out b.old_global_cursor in
    let out = put_u64 out b.new_global_cursor in
    let out = put_fixed out b.old_transcript_root in
    let out = put_fixed out b.new_transcript_root in
    let out = put_fixed out b.frame_plan_root in
    let out = put_fixed out b.ordered_item_root in
    let out = put_fixed out b.execution_stream_root in
    let out = put_u64 out b.ordered_item_count in
    let out = put_u64 out b.priority_start in
    let out = put_u64 out b.priority_end in
    let out = put_fixed out b.priority_root in
    let out = put_fixed out b.oracle_snapshot_root in
    let out = put_fixed out b.protocol_event_root in
    let out = put_fixed out b.l1_origin_hash in
    let out = put_fixed out b.policy_hash in put_fixed out b.decryption_module_id

-- `uN::from_be_bytes`, from the digits read so far.
unfoldable pub from_be_bytes : ℕ → Bytes → ℕ
from_be_bytes acc [] = acc
from_be_bytes acc (b ∷ bytes) = from_be_bytes (acc * 256 + b) bytes

-- `count` limbs of `w` bytes each.
unfoldable pub limbs : ℕ → ℕ → Bytes → List ℕ
unfolding from_be_bytes
limbs zero w value = []
limbs (suc count) w value = from_be_bytes 0 (take w value) ∷ limbs count w (drop w value)

unfoldable pub hash32_u32_limbs : Hash32 → List ℕ
unfolding limbs
hash32_u32_limbs value = limbs 8 4 value

unfoldable pub hash32_u64_limbs : Hash32 → List ℕ
unfolding limbs
hash32_u64_limbs value = limbs 4 8 value

-- The fields of the first hash: `x >> 32` and `x & u32::MAX` of a `u64`.
unfoldable pub stream_seed : Hash32 → ℕ → ℕ → List ℕ
unfolding hash32_u32_limbs
stream_seed domain_hash start_cursor item_count =
    hash32_u32_limbs domain_hash
    ++ (start_cursor / 2 ^ 32)
      ∷ (start_cursor % 2 ^ 32)
      ∷ (item_count / 2 ^ 32)
      ∷ (item_count % 2 ^ 32)
      ∷ []

-- The fields that one item adds.
unfoldable pub stream_fields : Hash32 → ExecutionItemV3 → List ℕ
unfolding hash32_u64_limbs
stream_fields digest item =
    hash32_u64_limbs digest
    ++ (item.logical_index / 2 ^ 32)
      ∷ (item.logical_index % 2 ^ 32)
      ∷ item.tx_type
      ∷ (item.tx_hash ++ item.outcome_class ∷ bool_code item.terminal_noop ∷ [])

module _ (hasher : LighterNativeHash) where
  open hasher use {hash, hash_fields}

  -- `for item in items { digest = ... }`
  unfoldable pub stream_steps : Hash32 → List ExecutionItemV3 → Hash32
  unfolding stream_fields
  stream_steps digest [] = digest
  stream_steps digest (item ∷ items) =
      stream_steps (hash_fields execution_stream_step_domain (stream_fields digest item)) items

  unfoldable pub compute_execution_stream_root : Hash32 → ℕ → List ExecutionItemV3 → Hash32
  unfolding stream_seed stream_steps
  compute_execution_stream_root domain_hash start_cursor items =
      stream_steps
        (hash_fields execution_stream_init_domain
          (stream_seed domain_hash start_cursor (length items)))
        items

  unfoldable pub compute_c_bind : BindingInputsV3 → Hash32
  unfolding binding_bytes
  compute_c_bind inputs = hash binding_domain (binding_bytes inputs)

  -- `for (index, item) in items.iter().enumerate()`; an error is the panic of `expect`.
  unfoldable pub advance_all :
      OrderedAccumulator → ℕ → List DerivedItemV3 → Result AccumulatorError OrderedAccumulator
  advance_all acc index [] = ok acc
  advance_all acc index (item ∷ items) = do
    next ← Accumulator.advance hasher acc index item
    advance_all next (index + 1) items

  unfoldable pub compute_ordered_item_root :
      Hash32 → ℕ → ℕ → List DerivedItemV3 → Result AccumulatorError Hash32
  unfolding advance_all
  compute_ordered_item_root domain_hash frame_id start_cursor items = do
    let start = Accumulator.new hasher domain_hash frame_id start_cursor (length items)
    done ← advance_all start 0 items
    Accumulator.finish done
