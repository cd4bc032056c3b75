-- ===== src/Plugin/Binding/Stream.antt =====
-- The execution stream root (crates/continuum-lighter-plugin/src/binding.rs) as a hash chain over the
-- compact items.
use lighter_integration.Base.{
  ℕ, ◌+◌, ◌/◌, ◌%◌, ◌^◌, ◌<◌, ◌≡◌, ◌≢◌, refl, sym, ◌∙◌, ◌⊎◌, inl, inr, Hash32, List, [], ◌∷◌, ◌++◌,
  length, All, arith, false, true, bytes_eq, bytes_eq_iff,
}
use lighter_integration.Plugin.Canonical.Reading.{append-injective}
use lighter_integration.Plugin.Types.{ExecutionItemV3, bool_code}
use lighter_integration.Plugin.Types.Encoding.{IsExecutionItem, bool_code-injective}
use lighter_integration.Plugin.Hash.{LighterNativeHash, IsHash32}
use lighter_integration.Plugin.Hash.Chain.{Calls, Collision, chain, run_calls, chain-commits}
use lighter_integration.Plugin.Binding.{
  execution_stream_init_domain, execution_stream_step_domain, hash32_u32_limbs, hash32_u64_limbs,
  stream_seed, stream_fields, stream_steps, compute_execution_stream_root,
}
use lighter_integration.Plugin.Binding.Limbs.{
  length-u32_limbs, length-u64_limbs, hash32_u32_limbs-injective, hash32_u64_limbs-injective,
}

-- A `u64` is the two halves that the fields carry.
halves : (m n : ℕ) → m / 2 ^ 32 ≡ n / 2 ^ 32 → m % 2 ^ 32 ≡ n % 2 ^ 32 → m ≡ n
halves m n hi lo = omega arith

item_fields-injective :
    (x y : ExecutionItemV3)
    → IsExecutionItem x
    → IsExecutionItem y
    → ◌≡◌ {A = List ℕ}
        ((x.logical_index / 2 ^ 32)
          ∷ (x.logical_index % 2 ^ 32)
          ∷ x.tx_type
          ∷ (x.tx_hash ++ x.outcome_class ∷ bool_code x.terminal_noop ∷ []))
        ((y.logical_index / 2 ^ 32)
          ∷ (y.logical_index % 2 ^ 32)
          ∷ y.tx_type
          ∷ (y.tx_hash ++ y.outcome_class ∷ bool_code y.terminal_noop ∷ []))
    → x ≡ y
item_fields-injective x y hx hy e =
    let high : x.logical_index / 2 ^ 32 ≡ y.logical_index / 2 ^ 32 = cc in
    let low : x.logical_index % 2 ^ 32 ≡ y.logical_index % 2 ^ 32 = cc in
    let kind : x.tx_type ≡ y.tx_type = cc in
    let (hash, rest) =
      append-injective x.tx_hash y.tx_hash (x.outcome_class ∷ bool_code x.terminal_noop ∷ [])
        (y.outcome_class ∷ bool_code y.terminal_noop ∷ []) (hx.tx_limbs ∙ sym hy.tx_limbs) (cc) in
    let class : x.outcome_class ≡ y.outcome_class = cc in
    let noop : x.terminal_noop ≡ y.terminal_noop =
      bool_code-injective x.terminal_noop y.terminal_noop (cc) in
    λ i. record {
      logical_index = halves x.logical_index y.logical_index high low i;
      tx_type = kind i;
      tx_hash = hash i;
      outcome_class = class i;
      terminal_noop = noop i;
    }

abbrev fields_at : ℕ → Hash32 → ExecutionItemV3 → List ℕ
fields_at _ digest item = stream_fields digest item

stream_fields-injective :
    (i j : ℕ) (d d' : Hash32) (x y : ExecutionItemV3)
    → i < 2 ^ 64
    → j < 2 ^ 64
    → IsHash32 d
    → IsHash32 d'
    → IsExecutionItem x
    → IsExecutionItem y
    → stream_fields d x ≡ stream_fields d' y
    → (d ≡ d') × (x ≡ y)
unfolding stream_fields
stream_fields-injective i j d d' x y hi hj hd hd' hx hy e =
    let (digests, items) =
      append-injective (hash32_u64_limbs d) (hash32_u64_limbs d') _ _
        (length-u64_limbs d ∙ sym (length-u64_limbs d')) e in
    (hash32_u64_limbs-injective d d' hd hd' digests, item_fields-injective x y hx hy items)

seed-injective :
    (d d' : Hash32) (c c' n n' : ℕ)
    → IsHash32 d
    → IsHash32 d'
    → stream_seed d c n ≡ stream_seed d' c' n'
    → (d ≡ d') × (c ≡ c')
unfolding stream_seed
seed-injective d d' c c' n n' hd hd' e =
    let (domains, rest) =
      append-injective (hash32_u32_limbs d) (hash32_u32_limbs d') _ _
        (length-u32_limbs d ∙ sym (length-u32_limbs d')) e in
    (hash32_u32_limbs-injective d d' hd hd' domains, halves c c' (cc) (cc))

domains_differ : execution_stream_init_domain ≢ execution_stream_step_domain
unfolding bytes_eq
domains_differ e =
    let same : false ≡ true =
      (bytes_eq_iff execution_stream_init_domain execution_stream_step_domain).1 e in
    cc same

module _ (hasher : LighterNativeHash) where
  open hasher use {hash_fields, hash_fields_type}

  stream_steps-eq-chain :
      (i : ℕ) (d : Hash32) (items : List ExecutionItemV3)
      → stream_steps hasher d items
        ≡ chain hash_fields execution_stream_step_domain fields_at i d items
  unfolding stream_steps chain
  stream_steps-eq-chain i d [] = refl
  stream_steps-eq-chain i d (item ∷ items) =
      stream_steps-eq-chain (i + 1)
        (hash_fields execution_stream_step_domain (stream_fields d item)) items

  -- The calls of the field hash in compute_execution_stream_root.
  abbrev pub stream_calls : Hash32 → ℕ → List ExecutionItemV3 → Calls
  stream_calls domain cursor items =
      run_calls hash_fields execution_stream_step_domain fields_at execution_stream_init_domain
        (stream_seed domain cursor (length items)) items

  -- Equal execution stream roots of items in range mean the same domain, start cursor and compact
  -- items in the same order, or two of the calls of the field hash that make them, one of each root,
  -- collide.
  pub execution_stream_root_commits :
      (d d' : Hash32) (c c' : ℕ) (xs ys : List ExecutionItemV3)
      → IsHash32 d
      → IsHash32 d'
      → length xs < 2 ^ 64
      → length ys < 2 ^ 64
      → All IsExecutionItem xs
      → All IsExecutionItem ys
      → compute_execution_stream_root hasher d c xs ≡ compute_execution_stream_root hasher d' c' ys
      → ((d ≡ d') × (c ≡ c') × (xs ≡ ys))
        ⊎ Collision hash_fields (stream_calls d c xs) (stream_calls d' c' ys)
  unfolding compute_execution_stream_root
  execution_stream_root_commits d d' c c' xs ys hd hd' bx by' ix iy e = seeds (
      chain-commits hash_fields execution_stream_step_domain fields_at
        (record { injective = stream_fields-injective }) hash_fields_type
        execution_stream_init_domain _ _ xs ys domains_differ bx by' ix iy
        (sym (stream_steps-eq-chain 0 _ xs) ∙ e ∙ stream_steps-eq-chain 0 _ ys))
    where
      seeds :
          ((stream_seed d c (length xs) ≡ stream_seed d' c' (length ys)) × (xs ≡ ys))
            ⊎ Collision hash_fields (stream_calls d c xs) (stream_calls d' c' ys)
          → ((d ≡ d') × (c ≡ c') × (xs ≡ ys))
            ⊎ Collision hash_fields (stream_calls d c xs) (stream_calls d' c' ys)
      seeds (inr k) = inr k
      seeds (inl (s, t)) =
          let (domains, cursors) = seed-injective d d' c c' (length xs) (length ys) hd hd' s in
          inl (domains, cursors, t)
