-- ===== src/Plugin/Accumulator.antt =====
-- crates/continuum-lighter-plugin/src/accumulator.rs: the accumulator over the rich items. A method
-- that takes `&mut self` returns the accumulator; where it fails, the caller keeps the one it had.
pub mod Commitment
use lighter_integration.Base.{
  ℕ, ◌+◌, Bytes, Hash32, List, [], ◌∷◌, ◌++◌, length, codes, leb, ◌!=◌, Bool, Result, ok, err,
  guarded, ◌>>=◌,
}
use lighter_integration.Plugin.Canonical.{to_be_bytes}
use lighter_integration.Plugin.Types.{DerivedItemV3, derived_bytes}
use lighter_integration.Plugin.Hash.{LighterNativeHash}

abbrev pub init_domain : Bytes
init_domain = codes "CONTINUUM_LIGHTER_ITEMS_V3"

abbrev pub step_domain : Bytes
step_domain = codes "CONTINUUM_LIGHTER_ITEM_STEP_V3"

-- Both carry `(expected, actual)`.
pub data AccumulatorError : Type 0 where
  non_consecutive_index : ℕ → ℕ → AccumulatorError
  count_mismatch : ℕ → ℕ → AccumulatorError

pub record OrderedAccumulator : Type 0 where
  pub next_index : ℕ
  pub expected_count : ℕ
  pub digest : Hash32

-- The payloads that are hashed.
unfoldable pub seed_payload : Hash32 → ℕ → ℕ → ℕ → Bytes
seed_payload domain_hash frame_id start_cursor item_count =
    domain_hash
    ++ (to_be_bytes 8 frame_id ++ (to_be_bytes 8 start_cursor ++ to_be_bytes 8 item_count))

unfoldable pub step_payload : ℕ → Hash32 → DerivedItemV3 → Bytes
step_payload logical_index digest item =
    digest ++ (to_be_bytes 8 logical_index ++ derived_bytes item)

module _ (hasher : LighterNativeHash) where
  open hasher use {hash}

  -- `OrderedAccumulator::new`
  unfoldable pub new : Hash32 → ℕ → ℕ → ℕ → OrderedAccumulator
  unfolding seed_payload
  new domain_hash frame_id start_cursor item_count = record {
    next_index = 0;
    expected_count = item_count;
    digest = hash init_domain (seed_payload domain_hash frame_id start_cursor item_count);
  }

  -- `next_index + 1` is at most `expected_count`, a `u64`: it does not wrap.
  unfoldable pub advance :
      OrderedAccumulator → ℕ → DerivedItemV3 → Result AccumulatorError OrderedAccumulator
  unfolding step_payload
  advance acc logical_index item =
      guarded
        ((logical_index != acc.next_index, non_consecutive_index acc.next_index logical_index)
          ∷ (
            leb acc.expected_count acc.next_index,
            count_mismatch acc.expected_count (acc.next_index + 1),
          )
          ∷ [])
        (ok (record acc {
          digest = hash step_domain (step_payload logical_index acc.digest item);
          next_index = acc.next_index + 1;
        }))

-- `finish`
unfoldable pub finish : OrderedAccumulator → Result AccumulatorError Hash32
finish acc =
    guarded
      ((acc.next_index != acc.expected_count, count_mismatch acc.expected_count acc.next_index)
        ∷ [])
      (ok acc.digest)
