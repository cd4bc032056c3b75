-- ===== src/Plugin/Sequence/Pinned.antt =====
-- `C_bind` and the derived items of accepted transitions
-- (crates/continuum-lighter-plugin/src/sequence.rs, binding.rs).
use mathlib.Core.Path.{subst₂}
use lighter_integration.Base.{◌≡◌, sym, ◌∙◌, ap, ◌⊎◌, inl, inr, Hash32, List, ◌∷◌, length, ok}
use lighter_integration.Plugin.Hash.{LighterNativeHash}
use lighter_integration.Plugin.Hash.Chain.{Calls, Collision, Collision-first, Collision-later}
use lighter_integration.Plugin.Binding.{BindingInputsV3, binding_domain, binding_bytes}
use lighter_integration.Plugin.Binding.Inputs.{IsBindingInputs, c_bind_calls, c_bind_commits}
use lighter_integration.Plugin.Binding.Commitment.{InRange, root_calls, ordered_item_root_commits}
use lighter_integration.Plugin.Sequence.{
  ResolvedItemV3, SequenceTransitionPublicV3, SequenceTransitionWitnessV3, TransitionAuthenticator,
}
use lighter_integration.Plugin.Sequence.Transition.{
  first_frame, derived_of, derive, verify_sequence_transition,
}
use lighter_integration.Plugin.Sequence.Settles.{Verified, verify_sequence_transition-Verified}

module _ (hasher : LighterNativeHash) (authenticator : TransitionAuthenticator)
    (public : SequenceTransitionPublicV3) (witness : SequenceTransitionWitnessV3) where
  -- A transition that is accepted, derives these items, and has all its numbers in range.
  pub record Accepted (items : List ResolvedItemV3) : Type 0 where
    pub digest : Hash32
    pub accepts : verify_sequence_transition hasher authenticator public witness ≡ ok tt
    pub derives : derive hasher authenticator public witness ≡ ok (digest, items)
    pub inputs : IsBindingInputs public.binding
    pub in_range :
        InRange (first_frame (derived_of items)) public.old_state.global_cursor (derived_of items)

  Accepted-Verified :
      {items : List ResolvedItemV3}
      → (a : Accepted items) → Verified hasher authenticator public witness a.digest items
  Accepted-Verified {items} a =
      let (d, found, e, v) =
        verify_sequence_transition-Verified hasher authenticator public witness a.accepts in
      let same_digest : d ≡ a.digest = cc (e, a.derives) in
      let same_items : found ≡ items = cc (e, a.derives) in
      subst₂
        (λ (d : Hash32) (l : List ResolvedItemV3). Verified hasher authenticator public witness d l)
        same_digest same_items v

-- The calls of the hash by which a transition binds its items: `C_bind` and the ordered-item root.
abbrev pub pinning_calls :
    LighterNativeHash → SequenceTransitionPublicV3 → List ResolvedItemV3 → Calls
pinning_calls hasher public items =
    (binding_domain, binding_bytes public.binding)
    ∷ root_calls hasher public.old_state.domain_hash (first_frame (derived_of items))
        public.old_state.global_cursor (derived_of items)

-- Two accepted transitions in range with one C_bind have the same derived items in the same order,
-- or the calls of the hash that their C_binds and ordered-item roots make, one of each transition,
-- collide.
pub c_bind_pins_stream :
    (hasher : LighterNativeHash) (a₁ a₂ : TransitionAuthenticator)
    (p₁ p₂ : SequenceTransitionPublicV3) (w₁ w₂ : SequenceTransitionWitnessV3)
    {items₁ items₂ : List ResolvedItemV3}
    → Accepted hasher a₁ p₁ w₁ items₁
    → Accepted hasher a₂ p₂ w₂ items₂
    → p₁.c_bind ≡ p₂.c_bind
    → (derived_of items₁ ≡ derived_of items₂)
      ⊎ Collision hasher.hash (pinning_calls hasher p₁ items₁) (pinning_calls hasher p₂ items₂)
c_bind_pins_stream hasher a₁ a₂ p₁ p₂ w₁ w₂ {items₁} {items₂} x y e = same_inputs (
    c_bind_commits hasher p₁.binding p₂.binding x.inputs y.inputs
      (v₁.rooted.c_bind ∙ e ∙ sym v₂.rooted.c_bind))
  where
    Pinned : Type 0
    Pinned =
        (derived_of items₁ ≡ derived_of items₂)
        ⊎ Collision hasher.hash (pinning_calls hasher p₁ items₁) (pinning_calls hasher p₂ items₂)

    v₁ : Verified hasher a₁ p₁ w₁ x.digest items₁
    v₁ = Accepted-Verified hasher a₁ p₁ w₁ x

    v₂ : Verified hasher a₂ p₂ w₂ y.digest items₂
    v₂ = Accepted-Verified hasher a₂ p₂ w₂ y

    same_inputs :
        (p₁.binding ≡ p₂.binding)
          ⊎ Collision hasher.hash (c_bind_calls p₁.binding) (c_bind_calls p₂.binding)
        → Pinned
    same_inputs (inr c) = inr (Collision-first c)
    same_inputs (inl b) =
        let roots : p₁.binding.ordered_item_root ≡ p₂.binding.ordered_item_root =
          ap (λ (r : BindingInputsV3). r.ordered_item_root) b in
        let domains : p₁.old_state.domain_hash ≡ p₂.old_state.domain_hash =
          v₁.derived.binding_domain
          ∙ ap (λ (r : BindingInputsV3). r.domain_hash) b
          ∙ sym v₂.derived.binding_domain in
        same_roots (
          ordered_item_root_commits hasher p₁.old_state.domain_hash p₂.old_state.domain_hash _ _
            p₁.old_state.global_cursor p₂.old_state.global_cursor (derived_of items₁)
            (derived_of items₂) (ap (λ (d : Hash32). length d) domains) x.in_range y.in_range
            (v₁.rooted.item_root ∙ ap ok roots ∙ sym v₂.rooted.item_root))
      where
        same_roots :
            ((p₁.old_state.domain_hash ≡ p₂.old_state.domain_hash)
                × (first_frame (derived_of items₁) ≡ first_frame (derived_of items₂))
                × (p₁.old_state.global_cursor ≡ p₂.old_state.global_cursor)
                × (derived_of items₁ ≡ derived_of items₂))
              ⊎ Collision hasher.hash
                  (root_calls hasher p₁.old_state.domain_hash
                    (first_frame (derived_of items₁))
                    p₁.old_state.global_cursor
                    (derived_of items₁))
                  (root_calls hasher p₂.old_state.domain_hash
                    (first_frame (derived_of items₂))
                    p₂.old_state.global_cursor
                    (derived_of items₂))
            → Pinned
        same_roots (inr c) = inr (Collision-later _ _ c)
        same_roots (inl (_, _, _, t)) = inl t
