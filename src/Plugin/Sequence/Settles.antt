-- ===== src/Plugin/Sequence/Settles.antt =====
-- The sequence relation (crates/continuum-lighter-plugin/src/sequence.rs) and the settlement join
-- (crates/continuum-lighter-plugin/src/join.rs) together.
use lighter_integration.Base.{◌+◌, ◌≤◌, ◌≡◌, Hash32, List, length, ok, ok_bind}
use lighter_integration.Plugin.Hash.{LighterNativeHash}
use lighter_integration.Plugin.Join.{ExecutionPublicV3, SettlementHeadV3}
use lighter_integration.Plugin.Sequence.{
  ResolvedItemV3, SequenceTransitionPublicV3, SequenceTransitionWitnessV3, TransitionAuthenticator,
}
use lighter_integration.Plugin.Sequence.Transition.{
  derive, verify_roots, verify_sequence_transition,
}
use lighter_integration.Plugin.Sequence.Sound.{Derived, derive-Derived}
use lighter_integration.Plugin.Sequence.Roots.{NewState, Rooted, verify_roots-eq-ok}

module _ (hasher : LighterNativeHash) (authenticator : TransitionAuthenticator)
    (public : SequenceTransitionPublicV3) (witness : SequenceTransitionWitnessV3) where
  -- Everything that an accepted transition establishes.
  pub record Verified (digest : Hash32) (items : List ResolvedItemV3) : Type 0 where
    pub derived : Derived hasher authenticator public witness digest items
    pub state :
        NewState hasher authenticator public witness
          (public.old_state.global_cursor + length witness.receipts)
          (public.old_state.namespace_item_count + length items)
          digest
    pub rooted : Rooted hasher authenticator public witness items

  Verified-parts :
      (digest : Hash32) (items : List ResolvedItemV3)
      → derive hasher authenticator public witness ≡ ok (digest, items)
      → verify_roots hasher authenticator public witness digest items ≡ ok tt
      → Verified digest items
  Verified-parts digest items e h =
      let d = derive-Derived hasher authenticator public witness digest items e in
      let (state, rooted) =
        verify_roots-eq-ok hasher authenticator public witness public.old_state.global_cursor digest
          items d.span.cursors h in
      record { derived = d; state = state; rooted = rooted }

  -- An accepted transition has a nonempty span of receipts with consecutive cursors, strictly
  -- increasing positions, linked and distinct digests and authentic signatures; one item for each
  -- protected receipt, in their order, with the semantics of its resolution; a new state that counts
  -- them; and binding inputs whose roots and C_bind are those of the items.
  pub verify_sequence_transition-Verified :
      verify_sequence_transition hasher authenticator public witness ≡ ok tt
      → (digest : Hash32) × (items : List ResolvedItemV3) × (derive hasher authenticator public
            witness
          ≡ ok (digest, items))
        × Verified digest items
  unfolding verify_sequence_transition
  verify_sequence_transition-Verified h =
      ok_bind (derive hasher authenticator public witness) h
        λ result e rest. (result.0, result.1, e, Verified-parts result.0 result.1 e rest)

-- The settled head stands where the transition starts.
pub record HeadAt (public : SequenceTransitionPublicV3) (verifier_id : Hash32)
    (head : SettlementHeadV3) : Type 0 where
  pub domain : public.old_state.domain_hash ≡ head.domain_hash
  pub epoch : public.old_state.epoch ≡ head.epoch
  pub verifier : verifier_id ≡ head.sequence_verifier_id
  pub cursor : public.old_state.global_cursor ≡ head.global_cursor
  pub namespace : public.old_state.namespace_item_count ≡ head.namespace_count
  pub transcript : public.old_state.transcript_root ≡ head.transcript_root
  pub priority : public.binding.priority_start ≡ head.priority_head
  pub priority_grows : public.binding.priority_start ≤ public.binding.priority_end

-- The execution proof starts at the head and executed the same stream.
pub record ExecutionAgrees (public : SequenceTransitionPublicV3) (head : SettlementHeadV3)
    (exec : ExecutionPublicV3) : Type 0 where
  pub domain : exec.domain_hash ≡ head.domain_hash
  pub epoch : exec.epoch ≡ head.epoch
  pub verifier : exec.verifier_id ≡ head.execution_verifier_id
  pub state_root : exec.old_state_root ≡ head.lighter_state_root
  pub binding : public.c_bind ≡ exec.c_bind
  pub blob : exec.blob_c_bind ≡ exec.c_bind
  pub items : public.binding.ordered_item_root ≡ exec.ordered_item_root
  pub stream : public.binding.execution_stream_root ≡ exec.execution_stream_root
  pub count : public.binding.ordered_item_count ≡ exec.ordered_item_count
