-- ===== src/Plugin/Accumulator/Commitment.antt =====
-- The preimages of the accumulator (crates/continuum-lighter-plugin/src/accumulator.rs) and what they are
-- made of.
use lighter_integration.Base.{ℕ, ◌^◌, ◌<◌, ◌≡◌, sym, ◌∙◌, Bytes, Hash32, ◌++◌, length}
use lighter_integration.Plugin.Canonical.{to_be_bytes}
use lighter_integration.Plugin.Canonical.Reading.{
  length-to_be_bytes, append-injective, to_be_bytes-injective,
}
use lighter_integration.Plugin.Types.{DerivedItemV3, derived_bytes}
use lighter_integration.Plugin.Types.Encoding.{IsDerivedItem, derived_bytes-injective}
use lighter_integration.Plugin.Hash.{IsHash32}
use lighter_integration.Plugin.Hash.Chain.{StepEncoding}
use lighter_integration.Plugin.Accumulator.{seed_payload, step_payload}

-- A 64-bit integer in front of a string.
pub leads_with_word :
    (m n : ℕ) (a b : Bytes)
    → m < 2 ^ 64
    → n < 2 ^ 64
    → to_be_bytes 8 m ++ a ≡ to_be_bytes 8 n ++ b
    → (m ≡ n) × (a ≡ b)
leads_with_word m n a b hm hn e =
    let (word, rest) =
      append-injective _ _ a b (length-to_be_bytes 8 m ∙ sym (length-to_be_bytes 8 n)) e in
    (to_be_bytes-injective 8 m n hm hn word, rest)

step_payload-injective :
    (i j : ℕ) (d d' : Hash32) (x y : DerivedItemV3)
    → i < 2 ^ 64
    → j < 2 ^ 64
    → IsHash32 d
    → IsHash32 d'
    → IsDerivedItem x
    → IsDerivedItem y
    → step_payload i d x ≡ step_payload j d' y
    → (d ≡ d') × (x ≡ y)
unfolding step_payload
step_payload-injective i j d d' x y hi hj hd hd' hx hy e =
    let (digests, rest) = append-injective d d' _ _ (hd.size ∙ sym hd'.size) e in
    let (_, items) = leads_with_word i j (derived_bytes x) (derived_bytes y) hi hj rest in
    (digests, derived_bytes-injective x y hx hy items)

pub step_payload-StepEncoding : StepEncoding step_payload IsDerivedItem
step_payload-StepEncoding = record { injective = step_payload-injective }

-- The seed determines the domain, the frame, the cursor and the item count.
pub seed_payload-injective :
    (d d' : Hash32) (f f' c c' n n' : ℕ)
    → length d ≡ length d'
    → f < 2 ^ 64
    → f' < 2 ^ 64
    → c < 2 ^ 64
    → c' < 2 ^ 64
    → n < 2 ^ 64
    → n' < 2 ^ 64
    → seed_payload d f c n ≡ seed_payload d' f' c' n'
    → (d ≡ d') × (f ≡ f') × (c ≡ c') × (n ≡ n')
unfolding seed_payload
seed_payload-injective d d' f f' c c' n n' l hf hf' hc hc' hn hn' e =
    let (domains, e₁) = append-injective d d' _ _ l e in
    let (frames, e₂) = leads_with_word f f' _ _ hf hf' e₁ in
    let (cursors, e₃) = leads_with_word c c' _ _ hc hc' e₂ in
    (domains, frames, cursors, to_be_bytes-injective 8 n n' hn hn' e₃)
