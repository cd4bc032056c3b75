-- ===== src/Plugin/Sequence/Roots.antt =====
-- The end of `verify_sequence_transition` (crates/continuum-lighter-plugin/src/sequence.rs): the new state,
-- the two roots and `C_bind`.
use mathlib.Core.Path.{subst₂}
use lighter_integration.Base.{
  ℕ, ◌+◌, ◌≡◌, ◌∙◌, ap, false, Hash32, List, [], ◌∷◌, length, some, Result, ok, err, Passes,
  guarded-eq-ok, ok_bind, ok_some, ok_guarded, arith,
}
use lighter_integration.Plugin.Hash.{LighterNativeHash}
use lighter_integration.Plugin.Accumulator.{AccumulatorError}
use lighter_integration.Plugin.Binding.{
  compute_c_bind, compute_execution_stream_root, compute_ordered_item_root,
}
use lighter_integration.Plugin.Sequence.{
  ReceiptV3, ResolvedItemV3, SequenceTransitionPublicV3, SequenceTransitionWitnessV3,
  TransitionAuthenticator, panicked, new_state,
}
use lighter_integration.Plugin.Sequence.Verify.{checked_add}
use lighter_integration.Plugin.Sequence.Transition.{
  last, first_frame, derived_of, executions_of, expect_root, state_differs, commitment_checks,
  root_checks, verify_roots,
}
use lighter_integration.Plugin.Sequence.Receipts.{Cursors, checked_add-eq-some, differs-eq}

last_cursor :
    (n : ℕ) (rs : List ReceiptV3) (r : ReceiptV3)
    → Cursors n rs
    → last rs ≡ some r
    → r.global_cursor + 1 ≡ n + length rs
last_cursor n [] r h e = cc
last_cursor n (x ∷ []) r h e =
    let same : x.global_cursor ≡ r.global_cursor = cc in omega (arith, h.0)
last_cursor n (x ∷ y ∷ rs) r h e = omega (arith, last_cursor (n + 1) (y ∷ rs) r h.1 e)

expect_root-eq-ok :
    (m : Result AccumulatorError Hash32) {root : Hash32} → expect_root m ≡ ok root → m ≡ ok root
unfolding expect_root
expect_root-eq-ok (ok r) h = cc
expect_root-eq-ok (err e) h = cc

module _ (hasher : LighterNativeHash) (authenticator : TransitionAuthenticator)
    (public : SequenceTransitionPublicV3) (witness : SequenceTransitionWitnessV3) where
  pub record NewState (cursor count : ℕ) (digest : Hash32) : Type 0 where
    pub at_cursor : public.new_state.global_cursor ≡ cursor
    pub at_count : public.new_state.namespace_item_count ≡ count
    pub chain : public.new_state.receipt_chain_root ≡ digest
    pub frame_plan : public.new_state.frame_plan_root ≡ public.binding.frame_plan_root
    pub new_transcript : public.new_state.transcript_root ≡ public.binding.new_transcript_root
    pub old_transcript : public.old_state.transcript_root ≡ public.binding.old_transcript_root
    pub old_cursor : public.old_state.global_cursor ≡ public.binding.old_global_cursor
    pub new_cursor : public.new_state.global_cursor ≡ public.binding.new_global_cursor

  state_differs-NewState :
      (cursor count : ℕ) (digest : Hash32)
      → state_differs public cursor count digest ≡ false
      → NewState cursor count digest
  unfolding state_differs
  state_differs-NewState cursor count digest h = record {
    at_cursor = ground arith;
    at_count = ground arith;
    chain = differs-eq _ _ (ground arith);
    frame_plan = differs-eq _ _ (ground arith);
    new_transcript = differs-eq _ _ (ground arith);
    old_transcript = differs-eq _ _ (ground arith);
    old_cursor = ground arith;
    new_cursor = ground arith;
  }

  -- The roots that the binding inputs carry are those of the items, and `C_bind` is their digest.
  pub record Rooted (items : List ResolvedItemV3) : Type 0 where
    pub item_root :
        compute_ordered_item_root hasher public.old_state.domain_hash
          (first_frame (derived_of items))
          public.old_state.global_cursor
          (derived_of items)
        ≡ ok public.binding.ordered_item_root
    pub item_count : length items ≡ public.binding.ordered_item_count
    pub stream_root :
        compute_execution_stream_root hasher public.old_state.domain_hash
          public.old_state.global_cursor
          (executions_of items)
        ≡ public.binding.execution_stream_root
    pub c_bind : compute_c_bind hasher public.binding ≡ public.c_bind

  root_checks-Rooted :
      (items : List ResolvedItemV3) (root : Hash32)
      → compute_ordered_item_root hasher public.old_state.domain_hash
          (first_frame (derived_of items))
          public.old_state.global_cursor
          (derived_of items)
        ≡ ok root
      → Passes (root_checks hasher authenticator public items root)
      → Rooted items
  unfolding root_checks
  root_checks-Rooted items root e (c0, (c1, (c2, _))) =
      let same : root ≡ public.binding.ordered_item_root = differs-eq _ _ (ground arith) in
      record {
        item_root = e ∙ ap ok same;
        item_count = ground arith;
        stream_root = differs-eq _ _ c1;
        c_bind = differs-eq _ _ c2;
      }

  pub verify_roots-eq-ok :
      (n : ℕ) (digest : Hash32) (items : List ResolvedItemV3)
      → Cursors (n + 1) witness.receipts
      → verify_roots hasher authenticator public witness digest items ≡ ok tt
      → NewState
          (n + length witness.receipts)
          (public.old_state.namespace_item_count + length items)
          digest
        × Rooted items
  unfolding verify_roots
  verify_roots-eq-ok n digest items cursors h =
      ok_guarded (commitment_checks hasher authenticator public witness) h λ _ h₁.
        ok_some (last witness.receipts) panicked h₁ λ r found h₂.
          ok_some (checked_add public.old_state.namespace_item_count (length items)) new_state h₂
            λ count fits h₃.
              ok_guarded ((state_differs public r.global_cursor count digest, new_state) ∷ []) h₃
                λ checked h₄.
                  ok_bind
                    (expect_root (
                      compute_ordered_item_root hasher public.old_state.domain_hash
                        (first_frame (derived_of items)) public.old_state.global_cursor
                        (derived_of items)))
                    h₄
                    λ root rooted h₅.
                      let at : r.global_cursor ≡ n + length witness.receipts =
                        omega (arith, last_cursor (n + 1) witness.receipts r cursors found) in
                      let (sum, _) =
                        checked_add-eq-some public.old_state.namespace_item_count (length items)
                          fits in
                      (
                        subst₂ (λ (c k : ℕ). NewState c k digest) at sum
                            (state_differs-NewState r.global_cursor count digest checked.0),
                        root_checks-Rooted items root (expect_root-eq-ok _ rooted)
                            (guarded-eq-ok (root_checks hasher authenticator public items root)
                              (ok tt) h₅).0,
                      )
