-- ===== src/Plugin/Sequence/Sound.antt =====
-- The loops of `verify_sequence_transition` (crates/continuum-lighter-plugin/src/sequence.rs) together.
use mathlib.Core.Path.{subst, subst₂}
use lighter_integration.Base.{
  ℕ, ◌+◌, ◌≡◌, ◌≢◌, ◌!=◌, Hash32, List, [], ◌∷◌, length, bytes_eq_iff, none, some, Result, ok,
  Passes, ok_bind, ok_some, ok_guarded, arith,
}
use lighter_integration.Plugin.Hash.{LighterNativeHash}
use lighter_integration.Plugin.Sequence.{
  ReceiptV3, ResolvedItemV3, SequenceTransitionPublicV3, SequenceTransitionWitnessV3,
  TransitionAuthenticator, SequenceTransitionError, orphan_resolution,
}
use lighter_integration.Plugin.Sequence.Verify.{
  ReceiptScan, scan_receipts, index_resolutions, protected_receipts, derive_items, checked_add,
}
use lighter_integration.Plugin.Sequence.Transition.{initial_scan, state_checks, derive}
use lighter_integration.Plugin.Sequence.Receipts.{
  Span, Ordered, scan_receipts-Span, checked_add-eq-some,
}
use lighter_integration.Plugin.Sequence.Items.{ResolvesAll, derive_items-ResolvesAll}

module _ (hasher : LighterNativeHash) (authenticator : TransitionAuthenticator)
    (public : SequenceTransitionPublicV3) (witness : SequenceTransitionWitnessV3) where
  protected : List ReceiptV3
  protected = protected_receipts public.namespace_id witness.receipts

  -- What the loops establish of the receipts and the items.
  pub record Derived (last_digest : Hash32) (items : List ResolvedItemV3) : Type 0 where
    pub domain : public.old_state.domain_hash ≡ public.new_state.domain_hash
    pub binding_domain : public.old_state.domain_hash ≡ public.binding.domain_hash
    pub epoch : public.old_state.epoch ≡ public.new_state.epoch
    pub config : public.old_state.config_hash ≡ public.new_state.config_hash
    pub nonempty : witness.receipts ≢ []
    pub span :
        Span authenticator public
          (public.old_state.global_cursor + 1)
          public.old_state.receipt_chain_root
          witness.receipts
          last_digest
    pub ordered : Ordered none witness.receipts
    pub resolved :
        ResolvesAll authenticator public 0
          (protected_receipts public.namespace_id witness.receipts)
          items

  state_checks_pass :
      Passes (state_checks hasher authenticator public witness)
      → (public.old_state.domain_hash ≡ public.new_state.domain_hash)
        × (public.old_state.domain_hash ≡ public.binding.domain_hash)
        × (public.old_state.epoch ≡ public.new_state.epoch)
        × (public.old_state.config_hash ≡ public.new_state.config_hash)
        × (witness.receipts ≢ [])
  unfolding state_checks
  state_checks_pass (c0, (c1, (c2, (c3, _)))) = (
    ground (arith, bytes_eq_iff public.old_state.domain_hash public.new_state.domain_hash),
    ground (arith, bytes_eq_iff public.old_state.domain_hash public.binding.domain_hash),
    ground arith,
    ground (arith, bytes_eq_iff public.old_state.config_hash public.new_state.config_hash),
    ground arith,
  )

  derived_parts :
      (d : Hash32) (items : List ResolvedItemV3) (first : ℕ) (scan : ReceiptScan)
      (found : List ResolvedItemV3)
      → ◌≡◌ {A = Result SequenceTransitionError (Hash32 × List ResolvedItemV3)}
          (ok (scan.previous_digest, found))
          (ok (d, items))
      → Passes (state_checks hasher authenticator public witness)
      → checked_add public.old_state.global_cursor 1 ≡ some first
      → scan_receipts authenticator public (initial_scan public first) witness.receipts ≡ ok scan
      → ResolvesAll authenticator public 0 protected found
      → Derived d items
  unfolding initial_scan protected
  derived_parts d items first scan found same checked fits scanned resolved =
      let (dom, bdom, ep, conf, some_receipt) = state_checks_pass checked in
      let (at, _) = checked_add-eq-some public.old_state.global_cursor 1 fits in
      let (span, ordered, _) =
        scan_receipts-Span authenticator public (initial_scan public first) witness.receipts
          scanned in
      let digest : scan.previous_digest ≡ d = cc in
      let same_items : found ≡ items = cc in
      record {
        domain = dom;
        binding_domain = bdom;
        epoch = ep;
        config = conf;
        nonempty = some_receipt;
        span =
            subst₂
              (λ (n : ℕ) (e : Hash32).
                Span authenticator public n public.old_state.receipt_chain_root witness.receipts e)
              at digest span;
        ordered = ordered;
        resolved = subst (ResolvesAll authenticator public 0 _) same_items resolved;
      }

  pub derive-Derived :
      (d : Hash32) (items : List ResolvedItemV3)
      → derive hasher authenticator public witness ≡ ok (d, items)
      → Derived d items
  unfolding derive protected
  derive-Derived d items h =
      ok_guarded (state_checks hasher authenticator public witness) h λ checked h₁.
        ok_some (checked_add public.old_state.global_cursor 1) _ h₁ λ first fits h₂.
          ok_bind (scan_receipts authenticator public (initial_scan public first) witness.receipts)
            h₂
            λ scan scanned h₃.
              ok_bind (index_resolutions scan.seen_receipts [] witness.resolved_items) h₃
                λ m indexed h₄.
                  ok_bind (derive_items authenticator public m 0 protected) h₄ λ found derived h₅.
                    ok_guarded ((length m != length protected, orphan_resolution) ∷ []) h₅ λ _ h₆.
                      derived_parts d items first scan found h₆ checked fits scanned
                        (derive_items-ResolvesAll authenticator public m 0 protected found derived)
