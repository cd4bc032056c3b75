-- ===== src/Plugin/Sequence/Verify.antt =====
-- `verify_sequence_transition` of crates/continuum-lighter-plugin/src/sequence.rs, loop by loop.
-- Hash sets and maps are lists of the keys, and of the entries, put in so far.
use lighter_integration.Base.{
  ℕ, ◌+◌, ◌^◌, Bool, false, not, ◌&&◌, ◌||◌, Hash32, List, [], ◌∷◌, ltb, leb, ◌==◌, ◌!=◌,
  if◌then◌else◌, Option, none, some, bytes_eq, Result, ok, guarded, ok_or, ◌>>=◌, ◌>>◌, replicate,
  map,
}
use lighter_integration.Plugin.Types.{
  ResolutionV3, clear, bad_aead, bad_encoding, l1_cancelled, resolution_code,
}
use lighter_integration.Plugin.Join.{differs}
use lighter_integration.Plugin.Sequence.{
  ReceiptV3, ResolvedItemV3, SequenceTransitionPublicV3, TransitionAuthenticator,
  SequenceTransitionError, epoch, cursor, receipt_order, receipt_chain, duplicate_receipt,
  duplicate_envelope, invalid_receipt, invalid_da, missing_resolution, duplicate_resolution,
  orphan_resolution, resolution_binding, invalid_terminal_semantics, invalid_execution_leaf,
}

-- `a.checked_add(b)` on `u64`
unfoldable pub checked_add : ℕ → ℕ → Option ℕ
checked_add a b = if ltb (a + b) (2 ^ 64) then some (a + b) else none

-- `set.contains(key)`
unfoldable pub contains : Hash32 → List Hash32 → Bool
contains key [] = false
contains key (k ∷ keys) = bytes_eq k key || contains key keys

-- `map.get(key)`
unfoldable pub find_resolution : Hash32 → List ResolvedItemV3 → Option ResolvedItemV3
find_resolution key [] = none
find_resolution key (item ∷ items) =
    if bytes_eq item.receipt_digest key then some item else find_resolution key items

-- The variables of the loop over the receipts. The keys of `receipt_by_digest` are those of
-- `seen_receipts`, and only its keys are read.
pub record ReceiptScan : Type 0 where
  pub expected_cursor : ℕ
  pub previous_position : Option (ℕ × ℕ)
  pub previous_digest : Hash32
  pub seen_receipts : List Hash32
  pub seen_envelopes : List Hash32

-- `(tick, position) <= previous`, in lexicographic order
unfoldable pub not_after : Option (ℕ × ℕ) → ℕ → ℕ → Bool
not_after none tick position = false
not_after (some (t, p)) tick position = ltb tick t || tick == t && leb position p

module _ (authenticator : TransitionAuthenticator) (public : SequenceTransitionPublicV3) where
  open authenticator use {verify_receipt, verify_da, verify_resolution}

  -- the conditions of the loop body before and after the cursor is advanced
  unfoldable pub cursor_checks : ReceiptScan → ReceiptV3 → List (Bool × SequenceTransitionError)
  cursor_checks s receipt =
      (receipt.epoch != public.old_state.epoch, epoch)
      ∷ (receipt.global_cursor != s.expected_cursor, cursor)
      ∷ []

  unfoldable pub receipt_checks : ReceiptScan → ReceiptV3 → List (Bool × SequenceTransitionError)
  unfolding not_after contains
  receipt_checks s receipt =
      (not_after s.previous_position receipt.tick receipt.position, receipt_order)
      ∷ (differs receipt.previous_receipt_digest s.previous_digest, receipt_chain)
      ∷ (contains receipt.receipt_digest s.seen_receipts, duplicate_receipt)
      ∷ (contains receipt.envelope_hash s.seen_envelopes, duplicate_envelope)
      ∷ (not (verify_receipt receipt), invalid_receipt)
      ∷ (not (verify_da receipt public.new_state.da_commitment), invalid_da)
      ∷ []

  -- the body of `for receipt in &witness.receipts`
  unfoldable pub scan_receipt : ReceiptScan → ReceiptV3 → Result SequenceTransitionError ReceiptScan
  unfolding checked_add cursor_checks receipt_checks
  scan_receipt s receipt = do
    guarded (cursor_checks s receipt) (ok tt)
    next_cursor ← ok_or (checked_add s.expected_cursor 1) cursor
    guarded (receipt_checks s receipt) (
        ok (record {
          expected_cursor = next_cursor;
          previous_position = some (receipt.tick, receipt.position);
          previous_digest = receipt.receipt_digest;
          seen_receipts = receipt.receipt_digest ∷ s.seen_receipts;
          seen_envelopes = receipt.envelope_hash ∷ s.seen_envelopes;
        }))

  unfoldable pub scan_receipts :
      ReceiptScan → List ReceiptV3 → Result SequenceTransitionError ReceiptScan
  scan_receipts s [] = ok s
  scan_receipts s (receipt ∷ receipts) = do
    next ← scan_receipt s receipt
    scan_receipts next receipts

unfoldable pub index_checks :
    List Hash32 → List ResolvedItemV3 → ResolvedItemV3 → List (Bool × SequenceTransitionError)
unfolding contains
index_checks receipts by_receipt item =
    (contains item.receipt_digest (map (λ i. i.receipt_digest) by_receipt), duplicate_resolution)
    ∷ (not (contains item.receipt_digest receipts), orphan_resolution)
    ∷ []

-- The loop over the resolved items fills `resolution_by_receipt`.
unfoldable pub index_resolutions :
    List Hash32
    → List ResolvedItemV3
    → List ResolvedItemV3
    → Result SequenceTransitionError (List ResolvedItemV3)
unfolding index_checks find_resolution
index_resolutions receipts by_receipt [] = ok by_receipt
index_resolutions receipts by_receipt (item ∷ items) =
    guarded (index_checks receipts by_receipt item)
      (index_resolutions receipts (item ∷ by_receipt) items)

-- `witness.receipts.iter().filter(..)`
unfoldable pub protected_receipts : ℕ → List ReceiptV3 → List ReceiptV3
protected_receipts namespace [] = []
protected_receipts namespace (r ∷ rs) =
    let rest = protected_receipts namespace rs in
    if r.namespace_id == namespace then r ∷ rest else rest

unfoldable pub valid_terminal_execution : ResolvedItemV3 → Bool
valid_terminal_execution item =
    item.execution.terminal_noop
    && item.execution.tx_type == 0
    && bytes_eq item.execution.tx_hash (replicate 5 0)
    && item.execution.outcome_class == resolution_code item.derived.resolution
    && item.derived.terminal_reason == item.execution.outcome_class

-- The condition under which each arm of `match item.derived.resolution` fails.
unfoldable pub bad_semantics : ResolutionV3 → ResolvedItemV3 → Bool
unfolding valid_terminal_execution
bad_semantics clear item =
    item.execution.terminal_noop
    || item.execution.tx_type == 0
    || item.derived.cleartext_length == 0
    || item.derived.terminal_reason != 0
bad_semantics bad_encoding item = not (valid_terminal_execution item)
bad_semantics bad_aead item =
    not (valid_terminal_execution item)
    || item.derived.cleartext_length != 0
    || differs item.derived.cleartext_hash (replicate 4 0)
bad_semantics l1_cancelled item =
    not (valid_terminal_execution item)
    || item.derived.cleartext_length != 0
    || differs item.derived.cleartext_hash (replicate 4 0)

module _ (authenticator : TransitionAuthenticator) (public : SequenceTransitionPublicV3) where
  open authenticator use {verify_resolution}

  -- the checks of one protected receipt, at its `logical_index`
  unfoldable pub item_checks :
      ℕ → ReceiptV3 → ResolvedItemV3 → List (Bool × SequenceTransitionError)
  unfolding bad_semantics
  item_checks logical_index receipt item =
      (
        differs item.derived.domain_hash public.old_state.domain_hash
            || item.derived.tick != receipt.tick
            || item.derived.position != receipt.position
            || differs item.derived.envelope_hash receipt.envelope_hash
            || differs item.derived.receipt_digest receipt.receipt_digest,
        resolution_binding,
      )
      ∷ (not (verify_resolution receipt item), resolution_binding)
      ∷ (bad_semantics item.derived.resolution item, invalid_terminal_semantics)
      ∷ (item.execution.logical_index != logical_index, invalid_execution_leaf)
      ∷ []

  -- `for (logical_index, receipt) in protected_receipts.iter().enumerate()`: the items in the order
  -- in which they are pushed.
  unfoldable pub derive_items :
      List ResolvedItemV3
      → ℕ
      → List ReceiptV3
      → Result SequenceTransitionError (List ResolvedItemV3)
  unfolding item_checks
  derive_items by_receipt logical_index [] = ok []
  derive_items by_receipt logical_index (receipt ∷ receipts) = do
    item ← ok_or (find_resolution receipt.receipt_digest by_receipt) missing_resolution
    guarded (item_checks logical_index receipt item) (ok tt)
    rest ← derive_items by_receipt (logical_index + 1) receipts
    ok (item ∷ rest)
