-- ===== src/Plugin/Tests/Stream.antt =====
-- The theorems on encodings and commitments (crates/continuum-lighter-plugin/src/types.rs,
-- accumulator.rs, binding.rs) at the settlement of Plugin/Tests.
use lighter_integration.Base.{◌≡◌, refl, [], ◌∷◌, arith, ◌⊎◌}
use lighter_integration.Plugin.Hash.Chain.{Collision}
use lighter_integration.Plugin.Binding.Inputs.{c_bind_calls, c_bind_commits}
use lighter_integration.Plugin.Binding.Stream.{stream_calls, execution_stream_root_commits}
use lighter_integration.Plugin.Binding.Commitment.{root_calls, ordered_item_root_commits}
use lighter_integration.Plugin.Tests.{
  digest_of, digest_of_hash, one_value, frame, start, derived, execution, inputs, inputs_range,
  execution_range, stream_range,
}

c_bind_commits_example :
    (inputs ≡ inputs) ⊎ Collision one_value.hash (c_bind_calls inputs) (c_bind_calls inputs)
c_bind_commits_example = c_bind_commits one_value inputs inputs inputs_range inputs_range refl

ordered_item_root_commits_example :
    ((digest_of 1 ≡ digest_of 1)
      × (frame ≡ frame)
      × (start ≡ start)
      × (derived ∷ [] ≡ derived ∷ []))
    ⊎ Collision one_value.hash
        (root_calls one_value (digest_of 1) frame start (derived ∷ []))
        (root_calls one_value (digest_of 1) frame start (derived ∷ []))
ordered_item_root_commits_example =
    ordered_item_root_commits one_value (digest_of 1) (digest_of 1) frame frame start start
      (derived ∷ []) (derived ∷ []) refl stream_range stream_range refl

execution_stream_root_commits_example :
    ((digest_of 1 ≡ digest_of 1) × (start ≡ start) × (execution ∷ [] ≡ execution ∷ []))
    ⊎ Collision one_value.hash_fields
        (stream_calls one_value (digest_of 1) start (execution ∷ []))
        (stream_calls one_value (digest_of 1) start (execution ∷ []))
execution_stream_root_commits_example =
    execution_stream_root_commits one_value (digest_of 1) (digest_of 1) start start (execution ∷ [])
      (execution ∷ []) (digest_of_hash 1 (omega arith)) (digest_of_hash 1 (omega arith))
      (omega arith) (omega arith) (execution_range, tt) (execution_range, tt) refl
