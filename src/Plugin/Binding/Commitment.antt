-- ===== src/Plugin/Binding/Commitment.antt =====
-- The ordered-item root (crates/continuum-lighter-plugin/src/binding.rs) as a hash chain over the items.
use lighter_integration.Base.{
  ℕ, ◌+◌, ◌^◌, ◌<◌, ◌≡◌, ◌≢◌, ap, ◌⊎◌, inl, inr, Bytes, Hash32, List, [], ◌∷◌, length, All, arith,
  ok,
}
use lighter_integration.Plugin.Types.{DerivedItemV3}
use lighter_integration.Plugin.Types.Encoding.{IsDerivedItem}
use lighter_integration.Plugin.Hash.{LighterNativeHash}
use lighter_integration.Plugin.Hash.Chain.{Calls, Collision, chain, run_calls, chain-commits}
use lighter_integration.Plugin.Accumulator
use lighter_integration.Plugin.Accumulator.{
  OrderedAccumulator, AccumulatorError, init_domain, step_domain, seed_payload, step_payload,
}
use lighter_integration.Plugin.Accumulator.Commitment.{
  step_payload-StepEncoding, seed_payload-injective,
}
use lighter_integration.Plugin.Binding.{advance_all, compute_ordered_item_root}

domains_differ : init_domain ≢ step_domain
domains_differ e = absurd (omega (arith, ap (λ (l : Bytes). length l) e))

module _ (hasher : LighterNativeHash) where
  open hasher use {hash, hash_type}

  after : OrderedAccumulator → DerivedItemV3 → OrderedAccumulator
  after acc item = record acc {
    next_index = acc.next_index + 1;
    digest = hash step_domain (step_payload acc.next_index acc.digest item);
  }

  advance_in_order :
      (acc : OrderedAccumulator) (item : DerivedItemV3)
      → acc.next_index < acc.expected_count
      → Accumulator.advance hasher acc acc.next_index item ≡ ok (after acc item)
  unfolding Accumulator.advance after
  advance_in_order acc item h = ground arith

  advance_all-eq-chain :
      (acc : OrderedAccumulator) (items : List DerivedItemV3)
      → acc.next_index + length items ≡ acc.expected_count
      → advance_all hasher acc acc.next_index items
        ≡ ok (record acc {
          next_index = acc.expected_count;
          digest = chain hash step_domain step_payload acc.next_index acc.digest items;
        })
  unfolding advance_all chain after
  advance_all-eq-chain acc [] e =
      let full : acc.next_index ≡ acc.expected_count = omega arith in
      ap (λ (n : ℕ). ok (record acc { next_index = n })) full
  advance_all-eq-chain acc (item ∷ items) e =
      rw (advance_in_order acc item (omega arith))
        (advance_all-eq-chain (after acc item) items (omega arith))

  -- Compute_ordered_item_root never fails and returns the digest of the hash chain over the items.
  pub compute_ordered_item_root-eq-chain :
      (domain : Hash32) (frame cursor : ℕ) (items : List DerivedItemV3)
      → compute_ordered_item_root hasher domain frame cursor items
        ≡ ok (
            chain hash step_domain step_payload 0
              (hash init_domain (seed_payload domain frame cursor (length items)))
              items)
  unfolding compute_ordered_item_root Accumulator.new Accumulator.finish
  compute_ordered_item_root-eq-chain domain frame cursor items =
      rw
        (advance_all-eq-chain (Accumulator.new hasher domain frame cursor (length items)) items
          (omega arith))
        (ground arith)

-- The 64-bit ranges of a seed, and of a stream that it counts.
abbrev pub InRange : ℕ → ℕ → List DerivedItemV3 → Type 0
InRange frame cursor items =
    (frame < 2 ^ 64) × (cursor < 2 ^ 64) × (length items < 2 ^ 64) × All IsDerivedItem items

module _ (hasher : LighterNativeHash) where
  open hasher use {hash, hash_type}

  -- The calls of the hash in compute_ordered_item_root.
  abbrev pub root_calls : Hash32 → ℕ → ℕ → List DerivedItemV3 → Calls
  root_calls domain frame cursor items =
      run_calls hash step_domain step_payload init_domain
        (seed_payload domain frame cursor (length items)) items

  -- Equal ordered-item roots of streams in range mean the same domain, frame, start cursor and items
  -- in the same order, or two of the calls of the hash that make them, one of each root, collide.
  pub ordered_item_root_commits :
      (d d' : Hash32) (f f' c c' : ℕ) (xs ys : List DerivedItemV3)
      → length d ≡ length d'
      → InRange f c xs
      → InRange f' c' ys
      → compute_ordered_item_root hasher d f c xs ≡ compute_ordered_item_root hasher d' f' c' ys
      → ((d ≡ d') × (f ≡ f') × (c ≡ c') × (xs ≡ ys))
        ⊎ Collision hash (root_calls d f c xs) (root_calls d' f' c' ys)
  ordered_item_root_commits d d' f f' c c' xs ys l (hf, hc, hx, ix) (hf', hc', hy, iy) e = seeds (
      chain-commits hash step_domain step_payload step_payload-StepEncoding hash_type init_domain _
        _ xs ys domains_differ hx hy ix iy digests)
    where
      digests :
          chain hash step_domain step_payload 0
            (hash init_domain (seed_payload d f c (length xs)))
            xs
          ≡ chain hash step_domain step_payload 0
              (hash init_domain (seed_payload d' f' c' (length ys)))
              ys
      digests = cc (
        e,
        compute_ordered_item_root-eq-chain hasher d f c xs,
        compute_ordered_item_root-eq-chain hasher d' f' c' ys,
      )

      seeds :
          ((seed_payload d f c (length xs) ≡ seed_payload d' f' c' (length ys)) × (xs ≡ ys))
            ⊎ Collision hash (root_calls d f c xs) (root_calls d' f' c' ys)
          → ((d ≡ d') × (f ≡ f') × (c ≡ c') × (xs ≡ ys))
            ⊎ Collision hash (root_calls d f c xs) (root_calls d' f' c' ys)
      seeds (inr k) = inr k
      seeds (inl (s, t)) =
          let (domains, frames, cursors, _) =
            seed_payload-injective d d' f f' c c' (length xs) (length ys) l hf hf' hc hc' hx hy s in
          inl (domains, frames, cursors, t)
