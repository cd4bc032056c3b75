-- ===== src/Plugin/Tests.antt =====
-- A settlement at concrete inputs (crates/continuum-lighter-plugin/src): one protected receipt, its
-- item, and a hash of one value.
mod Settlement
mod Stream
use lighter_integration.Base.{
  ℕ, zero, suc, ◌↔◌, bytes_eq, ◌<◌, ◌≡◌, ◌≢◌, refl, Bool, true, false, Bytes, Hash32, List, [], ◌∷◌,
  ◌++◌, length, All, replicate, Result, ok, err, arith, ◌⊎◌,
}
use lighter_integration.Plugin.Types.{ResolutionV3, clear, DerivedItemV3, ExecutionItemV3}
use lighter_integration.Plugin.Hash.{IsHash32, LighterNativeHash}
use lighter_integration.Plugin.Hash.Chain.{Collision}
use lighter_integration.Plugin.Binding.{
  BindingInputsV3, compute_c_bind, compute_execution_stream_root, compute_ordered_item_root,
}
use lighter_integration.Plugin.Join.{
  SequencePublicV3, ExecutionPublicV3, SettlementHeadV3, advance_head, next_head,
}
use lighter_integration.Plugin.Sequence.{
  SequenceStateV3, ReceiptV3, ResolvedItemV3, SequenceTransitionPublicV3,
  SequenceTransitionWitnessV3, to_join_public, TransitionAuthenticator, SequenceTransitionError,
  panicked,
}
use lighter_integration.Plugin.Sequence.Transition.{verify_sequence_transition, derive}
use lighter_integration.Plugin.Accumulator.{
  advance, new, finish, init_domain, step_domain, seed_payload, step_payload,
}
use lighter_integration.Plugin.Types.{derived_bytes, execution_bytes}
use lighter_integration.Plugin.Types.Encoding.{IsDerivedItem, IsExecutionItem}
use lighter_integration.Plugin.Hash.Chain.{chain}
use lighter_integration.Plugin.Binding.Inputs.{IsBindingInputs, c_bind_commits}
use lighter_integration.Plugin.Binding.Stream.{execution_stream_root_commits}
use lighter_integration.Plugin.Binding.Commitment.{
  compute_ordered_item_root-eq-chain, InRange, ordered_item_root_commits,
}
use lighter_integration.Plugin.Join.Relation.{Joins, advance_head-iff-Joins}
use lighter_integration.Plugin.Join.Replay.{
  Reaches, here, settle, Continues, Reaches-Continues, settled_once,
}
use lighter_integration.Plugin.Sequence.Verify.{
  scan_receipts, scan_receipt, index_resolutions, derive_items, protected_receipts, bad_semantics,
}
use lighter_integration.Plugin.Sequence.Transition.{state_differs, derived_of, first_frame}
use lighter_integration.Plugin.Sequence.Settles.{
  Verified, verify_sequence_transition-Verified, HeadAt, ExecutionAgrees,
}
use lighter_integration.Plugin.Sequence.Pinned.{Accepted, c_bind_pins_stream}
use lighter_integration.Plugin.Sequence.Total.{verify_sequence_transition_total}

abbrev pub digest_of : ℕ → Hash32
digest_of b = replicate 32 b

replicate-All : (n b : ℕ) → b < 256 → All (λ x. x < 256) (replicate n b)
replicate-All zero b h = tt
replicate-All (suc n) b h = (h, replicate-All n b h)

pub digest_of_hash : (b : ℕ) → b < 256 → IsHash32 (digest_of b)
digest_of_hash b h = record { size = refl; bytes = replicate-All 32 b h }

abbrev pub one_value : LighterNativeHash
one_value = record {
  hash = λ _ _. digest_of 7;
  hash_fields = λ _ _. digest_of 7;
  hash_type = λ _ _. digest_of_hash 7 (omega arith);
  hash_fields_type = λ _ _. digest_of_hash 7 (omega arith);
}

abbrev pub trusting : TransitionAuthenticator
trusting = record {
  verify_receipt = λ _. true;
  verify_da = λ _ _. true;
  verify_resolution = λ _ _. true;
  verify_transcript_transition = λ _ _ _. true;
  verify_frame_commitments = λ _ _. true;
}

abbrev pub frame : ℕ
frame = 1

abbrev pub start : ℕ
start = 10

abbrev pub receipt : ReceiptV3
receipt = record {
  epoch = 3;
  global_cursor = 11;
  tick = 4;
  position = 0;
  namespace_id = 9;
  envelope_hash = digest_of 2;
  previous_receipt_digest = digest_of 5;
  receipt_digest = digest_of 6;
  da_leaf = digest_of 8;
  signature = [];
}

abbrev pub derived : DerivedItemV3
derived = record {
  domain_hash = digest_of 1;
  frame_id = 1;
  chunk_id = 0;
  tick = 4;
  position = 0;
  envelope_hash = digest_of 2;
  receipt_digest = digest_of 6;
  resolution = clear;
  cleartext_length = 40;
  cleartext_hash = 1 ∷ 2 ∷ 3 ∷ 4 ∷ [];
  terminal_reason = 0;
}

abbrev pub execution : ExecutionItemV3
execution = record {
  logical_index = 0;
  tx_type = 14;
  tx_hash = 5 ∷ 6 ∷ 7 ∷ 8 ∷ 9 ∷ [];
  outcome_class = 1;
  terminal_noop = false;
}

abbrev pub item : ResolvedItemV3
item = record {
  receipt_digest = digest_of 6;
  derived = derived;
  execution = execution;
  opening_commitment = digest_of 3;
}

abbrev pub old_state : SequenceStateV3
old_state = record {
  domain_hash = digest_of 1;
  epoch = 3;
  global_cursor = 10;
  namespace_item_count = 20;
  transcript_root = digest_of 4;
  receipt_chain_root = digest_of 5;
  frame_plan_root = digest_of 11;
  da_commitment = digest_of 12;
  config_hash = digest_of 13;
}

abbrev pub new_state : SequenceStateV3
new_state = record {
  domain_hash = digest_of 1;
  epoch = 3;
  global_cursor = 11;
  namespace_item_count = 21;
  transcript_root = digest_of 14;
  receipt_chain_root = digest_of 6;
  frame_plan_root = digest_of 15;
  da_commitment = digest_of 16;
  config_hash = digest_of 13;
}

abbrev pub inputs : BindingInputsV3
inputs = record {
  domain_hash = digest_of 1;
  epoch = 3;
  old_global_cursor = 10;
  new_global_cursor = 11;
  old_transcript_root = digest_of 4;
  new_transcript_root = digest_of 14;
  frame_plan_root = digest_of 15;
  ordered_item_root = digest_of 7;
  execution_stream_root = digest_of 7;
  ordered_item_count = 1;
  priority_start = 0;
  priority_end = 2;
  priority_root = digest_of 17;
  oracle_snapshot_root = digest_of 18;
  protocol_event_root = digest_of 19;
  l1_origin_hash = digest_of 20;
  policy_hash = digest_of 21;
  decryption_module_id = digest_of 22;
}

abbrev pub public : SequenceTransitionPublicV3
public = record {
  namespace_id = 9;
  old_state = old_state;
  new_state = new_state;
  binding = inputs;
  c_bind = digest_of 7;
}

abbrev pub witness : SequenceTransitionWitnessV3
witness = record { receipts = receipt ∷ []; resolved_items = item ∷ [] }

abbrev pub head : SettlementHeadV3
head = record {
  domain_hash = digest_of 1;
  sequence_verifier_id = digest_of 30;
  execution_verifier_id = digest_of 31;
  epoch = 3;
  global_cursor = 10;
  namespace_count = 20;
  transcript_root = digest_of 4;
  lighter_state_root = digest_of 32;
  priority_head = 0;
  last_c_bind = digest_of 33;
}

abbrev pub sequence : SequencePublicV3
unfolding to_join_public
sequence = to_join_public public (digest_of 30)

abbrev pub executed : ExecutionPublicV3
executed = record {
  domain_hash = digest_of 1;
  verifier_id = digest_of 31;
  epoch = 3;
  old_state_root = digest_of 32;
  new_state_root = digest_of 34;
  ordered_item_root = digest_of 7;
  execution_stream_root = digest_of 7;
  ordered_item_count = 1;
  blob_c_bind = digest_of 7;
  c_bind = digest_of 7;
}

pub inputs_range : IsBindingInputs inputs
inputs_range = record {
  domain_hash = refl;
  epoch = omega arith;
  old_global_cursor = omega arith;
  new_global_cursor = omega arith;
  old_transcript_root = refl;
  new_transcript_root = refl;
  frame_plan_root = refl;
  ordered_item_root = refl;
  execution_stream_root = refl;
  ordered_item_count = omega arith;
  priority_start = omega arith;
  priority_end = omega arith;
  priority_root = refl;
  oracle_snapshot_root = refl;
  protocol_event_root = refl;
  l1_origin_hash = refl;
  policy_hash = refl;
  decryption_module_id = refl;
}

pub derived_range : IsDerivedItem derived
derived_range = record {
  domain_hash = refl;
  frame_id = omega arith;
  chunk_id = omega arith;
  tick = omega arith;
  position = omega arith;
  envelope_hash = refl;
  receipt_digest = refl;
  cleartext_length = omega arith;
  cleartext_limbs = refl;
  cleartext_words = (omega arith, (omega arith, (omega arith, (omega arith, tt))));
  terminal_reason = omega arith;
}

pub execution_range : IsExecutionItem execution
execution_range = record {
  logical_index = omega arith;
  tx_type = omega arith;
  tx_limbs = refl;
  tx_words = (omega arith, (omega arith, (omega arith, (omega arith, (omega arith, tt)))));
  outcome_class = omega arith;
}

pub stream_range : InRange 1 10 (derived ∷ [])
stream_range = (omega arith, omega arith, omega arith, (derived_range, tt))
