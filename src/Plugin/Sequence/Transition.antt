-- ===== src/Plugin/Sequence/Transition.antt =====
-- The whole of `verify_sequence_transition` (crates/continuum-lighter-plugin/src/sequence.rs), over the
-- loops of Sequence/Verify.
use lighter_integration.Base.{
  true, false, ℕ, Bool, not, ◌||◌, Hash32, List, [], ◌∷◌, map, length, ◌!=◌, Option, none, some,
  Result, ok, err, guarded, ok_or, ◌>>=◌, ◌>>◌,
}
use lighter_integration.Plugin.Types.{DerivedItemV3, ExecutionItemV3}
use lighter_integration.Plugin.Hash.{LighterNativeHash}
use lighter_integration.Plugin.Accumulator.{AccumulatorError}
use lighter_integration.Plugin.Binding.{
  compute_c_bind, compute_execution_stream_root, compute_ordered_item_root,
}
use lighter_integration.Plugin.Join.{differs}
use lighter_integration.Plugin.Sequence.{
  ReceiptV3, ResolvedItemV3, SequenceTransitionPublicV3, SequenceTransitionWitnessV3,
  TransitionAuthenticator, SequenceTransitionError, domain, epoch, config, empty_span, cursor,
  orphan_resolution, transcript, frame_commitment, new_state, ordered_item_root,
  execution_stream_root, binding, panicked,
}
use lighter_integration.Plugin.Sequence.Verify.{
  ReceiptScan, scan_receipts, index_resolutions, protected_receipts, derive_items, checked_add,
}

abbrev pub is_empty : List ReceiptV3 → Bool
is_empty [] = true
is_empty (r ∷ rs) = false

-- `witness.receipts.last()`
abbrev pub last : List ReceiptV3 → Option ReceiptV3
last [] = none
last (r ∷ []) = some r
last (r ∷ s ∷ rs) = last (s ∷ rs)

-- `derived_items.first().map(|item| item.frame_id).unwrap_or(0)`
abbrev pub first_frame : List DerivedItemV3 → ℕ
first_frame [] = 0
first_frame (item ∷ items) = item.frame_id

abbrev pub derived_of : List ResolvedItemV3 → List DerivedItemV3
derived_of items = map (λ i. i.derived) items

abbrev pub executions_of : List ResolvedItemV3 → List ExecutionItemV3
executions_of items = map (λ i. i.execution) items

-- The variables of the receipt loop before its first round.
unfoldable pub initial_scan : SequenceTransitionPublicV3 → ℕ → ReceiptScan
initial_scan public first_cursor = record {
  expected_cursor = first_cursor;
  previous_position = none;
  previous_digest = public.old_state.receipt_chain_root;
  seen_receipts = [];
  seen_envelopes = [];
}

-- `.expect(..)` on the accumulator
unfoldable pub expect_root : Result AccumulatorError Hash32 → Result SequenceTransitionError Hash32
expect_root (ok root) = ok root
expect_root (err e) = err panicked

-- the condition of `NewState`, given what was computed
unfoldable pub state_differs : SequenceTransitionPublicV3 → ℕ → ℕ → Hash32 → Bool
state_differs public expected_new_cursor expected_namespace_count previous_digest =
    public.new_state.global_cursor != expected_new_cursor
    || public.new_state.namespace_item_count != expected_namespace_count
    || differs public.new_state.receipt_chain_root previous_digest
    || differs public.new_state.frame_plan_root public.binding.frame_plan_root
    || differs public.new_state.transcript_root public.binding.new_transcript_root
    || differs public.old_state.transcript_root public.binding.old_transcript_root
    || public.old_state.global_cursor != public.binding.old_global_cursor
    || public.new_state.global_cursor != public.binding.new_global_cursor

unfoldable pub new_state_checks :
    SequenceTransitionPublicV3 → ℕ → ℕ → Hash32 → List (Bool × SequenceTransitionError)
new_state_checks public expected_new_cursor expected_namespace_count previous_digest =
    (state_differs public expected_new_cursor expected_namespace_count previous_digest, new_state)
    ∷ []

-- As many resolved items as protected receipts.
unfoldable pub count_checks :
    List ResolvedItemV3 → List ReceiptV3 → List (Bool × SequenceTransitionError)
count_checks by_receipt protected = (length by_receipt != length protected, orphan_resolution) ∷ []

module _ (hasher : LighterNativeHash) (authenticator : TransitionAuthenticator) where
  open authenticator use {verify_transcript_transition, verify_frame_commitments}

  -- the checks before the first loop
  unfoldable pub state_checks :
      SequenceTransitionPublicV3
      → SequenceTransitionWitnessV3
      → List (Bool × SequenceTransitionError)
  state_checks public witness =
      (
        differs public.old_state.domain_hash public.new_state.domain_hash
            || differs public.old_state.domain_hash public.binding.domain_hash,
        domain,
      )
      ∷ (
        public.old_state.epoch != public.new_state.epoch
            || public.old_state.epoch != public.binding.epoch,
        epoch,
      )
      ∷ (differs public.old_state.config_hash public.new_state.config_hash, config)
      ∷ (is_empty witness.receipts, empty_span)
      ∷ []

  unfoldable pub commitment_checks :
      SequenceTransitionPublicV3
      → SequenceTransitionWitnessV3
      → List (Bool × SequenceTransitionError)
  commitment_checks public witness =
      (
        not (
            verify_transcript_transition public.old_state.transcript_root witness.receipts
              public.new_state.transcript_root),
        transcript,
      )
      ∷ (not (verify_frame_commitments witness public), frame_commitment)
      ∷ []

  -- the last checks, given the ordered-item root
  unfoldable pub root_checks :
      SequenceTransitionPublicV3
      → List ResolvedItemV3
      → Hash32
      → List (Bool × SequenceTransitionError)
  root_checks public items item_root =
      (
        differs item_root public.binding.ordered_item_root
            || length items != public.binding.ordered_item_count,
        ordered_item_root,
      )
      ∷ (
        differs
            (compute_execution_stream_root hasher public.old_state.domain_hash
              public.old_state.global_cursor (executions_of items))
            public.binding.execution_stream_root,
        execution_stream_root,
      )
      ∷ (differs (compute_c_bind hasher public.binding) public.c_bind, binding)
      ∷ []

  -- from the end of the item loop on: the items are those of the protected receipts
  unfoldable pub verify_roots :
      SequenceTransitionPublicV3
      → SequenceTransitionWitnessV3
      → Hash32
      → List ResolvedItemV3
      → Result SequenceTransitionError (Unit {0})
  unfolding commitment_checks new_state_checks expect_root checked_add root_checks
  verify_roots public witness previous_digest items = do
    guarded (commitment_checks public witness) (ok tt)
    last_receipt ← ok_or (last witness.receipts) panicked
    expected_namespace_count ←
        ok_or (checked_add public.old_state.namespace_item_count (length items)) new_state
    guarded
        (new_state_checks public last_receipt.global_cursor expected_namespace_count
          previous_digest)
        (ok tt)
    item_root ← expect_root (
        compute_ordered_item_root hasher public.old_state.domain_hash
          (first_frame (derived_of items)) public.old_state.global_cursor (derived_of items))
    guarded (root_checks public items item_root) (ok tt)

  -- the items that the relation derives, and the digest of the last receipt
  unfoldable pub derive :
      SequenceTransitionPublicV3
      → SequenceTransitionWitnessV3
      → Result SequenceTransitionError (Hash32 × List ResolvedItemV3)
  unfolding state_checks count_checks initial_scan checked_add
  derive public witness = do
    guarded (state_checks public witness) (ok tt)
    first_cursor ← ok_or (checked_add public.old_state.global_cursor 1) cursor
    scan ← scan_receipts authenticator public (initial_scan public first_cursor) witness.receipts
    by_receipt ← index_resolutions scan.seen_receipts [] witness.resolved_items
    let protected = protected_receipts public.namespace_id witness.receipts
    items ← derive_items authenticator public by_receipt 0 protected
    guarded (count_checks by_receipt protected) (ok tt)
    ok (scan.previous_digest, items)

  unfoldable pub verify_sequence_transition :
      SequenceTransitionPublicV3
      → SequenceTransitionWitnessV3
      → Result SequenceTransitionError (Unit {0})
  unfolding derive verify_roots
  verify_sequence_transition public witness = do
    derived ← derive public witness
    verify_roots public witness derived.0 derived.1
