-- ===== src/Plugin/Tests/Settlement.antt =====
-- The theorems on the sequence relation and the join (crates/continuum-lighter-plugin/src/sequence.rs,
-- join.rs) at the settlement of Plugin/Tests.
use lighter_integration.Base.{◌↔◌, bytes_eq, ◌≡◌, ◌≢◌, refl, Hash32, List, [], ◌∷◌, ok, err, ◌⊎◌}
use lighter_integration.Plugin.Hash.Chain.{Collision}
use lighter_integration.Plugin.Binding.{
  compute_c_bind, compute_execution_stream_root, compute_ordered_item_root,
}
use lighter_integration.Plugin.Join.{advance_head, next_head}
use lighter_integration.Plugin.Sequence.{ResolvedItemV3, to_join_public, panicked}
use lighter_integration.Plugin.Sequence.Transition.{verify_sequence_transition, derive}
use lighter_integration.Plugin.Accumulator.{advance, new, finish}
use lighter_integration.Plugin.Join.Relation.{Joins, advance_head-iff-Joins}
use lighter_integration.Plugin.Join.Replay.{
  here, settle, Continues, Reaches-Continues, settled_once,
}
use lighter_integration.Plugin.Sequence.Verify.{
  scan_receipts, scan_receipt, index_resolutions, derive_items, protected_receipts,
}
use lighter_integration.Plugin.Sequence.Transition.{state_differs}
use lighter_integration.Plugin.Sequence.Settles.{Verified, verify_sequence_transition-Verified}
use lighter_integration.Plugin.Sequence.Pinned.{Accepted, pinning_calls, c_bind_pins_stream}
use lighter_integration.Plugin.Sequence.Total.{verify_sequence_transition_total}
use lighter_integration.Plugin.Tests.{
  digest_of, one_value, trusting, derived, item, public, witness, head, sequence, executed,
  inputs_range, stream_range,
}

accepted : verify_sequence_transition one_value trusting public witness ≡ ok tt
unfolding verify_sequence_transition bytes_eq scan_receipts scan_receipt index_resolutions
    derive_items protected_receipts state_differs compute_ordered_item_root advance new finish
    compute_execution_stream_root compute_c_bind
accepted = refl

derivation : derive one_value trusting public witness ≡ ok (digest_of 6, item ∷ [])
unfolding derive bytes_eq scan_receipts scan_receipt index_resolutions derive_items
    protected_receipts
derivation = refl

settles : advance_head head sequence executed ≡ ok (next_head head sequence executed)
unfolding advance_head to_join_public bytes_eq
settles = refl

advance_head-iff-Joins_example :
    (advance_head head sequence executed ≡ ok (next_head head sequence executed)) ↔ (
      Joins head sequence executed
      × (next_head head sequence executed ≡ next_head head sequence executed))
advance_head-iff-Joins_example =
    advance_head-iff-Joins head sequence executed (next_head head sequence executed)

Reaches-Continues_example : Continues head (sequence ∷ []) (next_head head sequence executed)
Reaches-Continues_example = Reaches-Continues (settle sequence executed here settles)

settled_once_example :
    advance_head (next_head head sequence executed) sequence executed
    ≢ ok (next_head head sequence executed)
settled_once_example =
    settled_once head (next_head head sequence executed) (next_head head sequence executed) []
      sequence executed executed settles here (next_head head sequence executed)

verify_sequence_transition-Verified_example :
    (digest : Hash32) × (items : List ResolvedItemV3) × (derive one_value trusting public witness
      ≡ ok (digest, items))
    × Verified one_value trusting public witness digest items
verify_sequence_transition-Verified_example =
    verify_sequence_transition-Verified one_value trusting public witness accepted

verify_sequence_transition_total_example :
    verify_sequence_transition one_value trusting public witness ≢ err panicked
verify_sequence_transition_total_example =
    verify_sequence_transition_total one_value trusting public witness

acceptance : Accepted one_value trusting public witness (item ∷ [])
acceptance = record {
  digest = digest_of 6;
  accepts = accepted;
  derives = derivation;
  inputs = inputs_range;
  in_range = stream_range;
}

c_bind_pins_stream_example :
    (derived ∷ [] ≡ derived ∷ [])
    ⊎ Collision one_value.hash
        (pinning_calls one_value public (item ∷ []))
        (pinning_calls one_value public (item ∷ []))
c_bind_pins_stream_example =
    c_bind_pins_stream one_value trusting trusting public public witness witness acceptance
      acceptance refl
