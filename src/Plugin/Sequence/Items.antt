-- ===== src/Plugin/Sequence/Items.antt =====
-- The item loop of `verify_sequence_transition` (crates/continuum-lighter-plugin/src/sequence.rs) and the
-- items that it derives.
use lighter_integration.Base.{
  ℕ, suc, ap, ◌||◌, ◌!=◌, ◌+◌, ◌≡◌, ◌≢◌, ◌↔◌, refl, true, false, not, List, [], ◌∷◌, length,
  replicate, bytes_eq_iff, ok, guarded, Passes, guarded-eq-ok, >>=-eq-ok, ok_or-eq-ok, arith,
}
use lighter_integration.Plugin.Types.{
  ResolutionV3, clear, bad_aead, bad_encoding, l1_cancelled, resolution_code,
}
use lighter_integration.Plugin.Join.{differs}
use lighter_integration.Plugin.Sequence.{
  ReceiptV3, ResolvedItemV3, SequenceTransitionPublicV3, TransitionAuthenticator,
}
use lighter_integration.Plugin.Sequence.Verify.{
  find_resolution, valid_terminal_execution, bad_semantics, item_checks, derive_items,
}

-- A terminal item executes as a no-op that carries its resolution's code.
pub record IsNoop (item : ResolvedItemV3) : Type 0 where
  pub noop : item.execution.terminal_noop ≡ true
  pub tx_type : item.execution.tx_type ≡ 0
  pub tx_hash : item.execution.tx_hash ≡ replicate 5 0
  pub outcome : item.execution.outcome_class ≡ resolution_code item.derived.resolution
  pub reason : item.derived.terminal_reason ≡ resolution_code item.derived.resolution

-- The table of resolutions in the specification (docs/lighter-integration-spec-v3.md, section 10.2).
abbrev pub Semantics : ResolutionV3 → ResolvedItemV3 → Type 0
Semantics clear item =
    (item.execution.terminal_noop ≡ false)
    × (item.execution.tx_type ≢ 0)
    × (item.derived.cleartext_length ≢ 0)
    × (item.derived.terminal_reason ≡ 0)
Semantics bad_encoding item = IsNoop item
Semantics bad_aead item =
    IsNoop item
    × (item.derived.cleartext_length ≡ 0)
    × (item.derived.cleartext_hash ≡ replicate 4 0)
Semantics l1_cancelled item =
    IsNoop item
    × (item.derived.cleartext_length ≡ 0)
    × (item.derived.cleartext_hash ≡ replicate 4 0)

valid_terminal_execution_iff :
    (item : ResolvedItemV3) → (valid_terminal_execution item ≡ true) ↔ IsNoop item
unfolding valid_terminal_execution
valid_terminal_execution_iff item = (
  (λ h. ground (arith, bytes_eq_iff item.execution.tx_hash (replicate 5 0))),
  (λ h. ground (arith, bytes_eq_iff item.execution.tx_hash (replicate 5 0))),
)

without_cleartext :
    (item : ResolvedItemV3)
    → ((not (valid_terminal_execution item)
          || item.derived.cleartext_length != 0
          || differs item.derived.cleartext_hash (replicate 4 0))
        ≡ false)
      ↔ (IsNoop item
          × (item.derived.cleartext_length ≡ 0)
          × (item.derived.cleartext_hash ≡ replicate 4 0))
without_cleartext item = (
  (λ h. ground (
    arith,
    valid_terminal_execution_iff item,
    bytes_eq_iff item.derived.cleartext_hash (replicate 4 0),
  )),
  (λ h. ground (
    arith,
    valid_terminal_execution_iff item,
    bytes_eq_iff item.derived.cleartext_hash (replicate 4 0),
  )),
)

-- The match on the resolution accepts an item exactly when it is in the row of the table of
-- resolutions for that resolution.
pub bad_semantics_iff :
    (r : ResolutionV3) (item : ResolvedItemV3) → (bad_semantics r item ≡ false) ↔ Semantics r item
unfolding bad_semantics
bad_semantics_iff clear item = ((λ h. ground arith), (λ h. ground arith))
bad_semantics_iff bad_encoding item = (
  (λ h. ground (arith, valid_terminal_execution_iff item)),
  (λ h. ground (arith, valid_terminal_execution_iff item)),
)
bad_semantics_iff bad_aead item = without_cleartext item
bad_semantics_iff l1_cancelled item = without_cleartext item

-- The receipt that an item resolves, and its place in the stream.
pub record Resolves (authenticator : TransitionAuthenticator) (public : SequenceTransitionPublicV3)
    (logical_index : ℕ) (receipt : ReceiptV3) (item : ResolvedItemV3) : Type 0 where
  pub domain_hash : item.derived.domain_hash ≡ public.old_state.domain_hash
  pub tick : item.derived.tick ≡ receipt.tick
  pub position : item.derived.position ≡ receipt.position
  pub envelope_hash : item.derived.envelope_hash ≡ receipt.envelope_hash
  pub receipt_digest : item.derived.receipt_digest ≡ receipt.receipt_digest
  pub authentic : authenticator.verify_resolution receipt item ≡ true
  pub semantics : Semantics item.derived.resolution item
  pub index : item.execution.logical_index ≡ logical_index

module _ (authenticator : TransitionAuthenticator) (public : SequenceTransitionPublicV3) where
  -- The items resolve the receipts one by one, in order, with consecutive logical indices.
  abbrev pub ResolvesAll : ℕ → List ReceiptV3 → List ResolvedItemV3 → Type 0
  ResolvesAll i [] [] = Unit
  ResolvesAll i (r ∷ rs) (item ∷ items) =
      Resolves authenticator public i r item × ResolvesAll (i + 1) rs items
  ResolvesAll i _ _ = ⊥

  item_checks_pass :
      (i : ℕ) (r : ReceiptV3) (item : ResolvedItemV3)
      → Passes (item_checks authenticator public i r item)
      → Resolves authenticator public i r item
  unfolding item_checks
  item_checks_pass i r item (c0, (c1, (c2, (c3, _)))) = record {
    domain_hash =
        ground (arith, bytes_eq_iff item.derived.domain_hash public.old_state.domain_hash);
    tick = ground arith;
    position = ground arith;
    envelope_hash = ground (arith, bytes_eq_iff item.derived.envelope_hash r.envelope_hash);
    receipt_digest = ground (arith, bytes_eq_iff item.derived.receipt_digest r.receipt_digest);
    authentic = ground arith;
    semantics = (bad_semantics_iff item.derived.resolution item).0 c2;
    index = ground arith;
  }

  pub derive_items-ResolvesAll :
      (by_receipt : List ResolvedItemV3) (i : ℕ) (rs : List ReceiptV3) (items : List ResolvedItemV3)
      → derive_items authenticator public by_receipt i rs ≡ ok items
      → ResolvesAll i rs items
  unfolding derive_items
  derive_items-ResolvesAll m i [] [] h = tt
  derive_items-ResolvesAll m i [] (x ∷ xs) h = cc
  derive_items-ResolvesAll m i (r ∷ rs) items h =
      let (item, found, h₁) = ok_or-eq-ok (find_resolution r.receipt_digest m) _ h in
      let (_, checked, h₂) =
        >>=-eq-ok (guarded (item_checks authenticator public i r item) (ok tt)) h₁ in
      let (rest, more, h₃) = >>=-eq-ok (derive_items authenticator public m (i + 1) rs) h₂ in
      let same : item ∷ rest ≡ items = cc in
      rw (← same) (
        item_checks_pass i r item
            (guarded-eq-ok (item_checks authenticator public i r item) (ok tt) checked).0,
        derive_items-ResolvesAll m (i + 1) rs rest more,
      )

  pub length-ResolvesAll :
      (i : ℕ) (rs : List ReceiptV3) (items : List ResolvedItemV3)
      → ResolvesAll i rs items
      → length items ≡ length rs
  length-ResolvesAll i [] [] h = refl
  length-ResolvesAll i [] (x ∷ xs) h = absurd h
  length-ResolvesAll i (r ∷ rs) [] h = absurd h
  length-ResolvesAll i (r ∷ rs) (x ∷ xs) h = ap suc (length-ResolvesAll (i + 1) rs xs h.1)
