-- ===== src/Sequencer/Records/Merkle/Binding.antt =====
-- Verified membership paths (crates/sequencer/src/records.rs) under one root.
use lighter_integration.Base.{
  ℕ, ◌/◌, ◌%◌, ◌≡◌, ◌≢◌, sym, ◌∙◌, refl, Bool, true, false, Bytes, Hash32, bytes_dec, bytes_eq_iff,
  List, [], ◌∷◌, ◌++◌, length, All, ◌⊎◌, inl, inr, ◌==◌, if◌then◌else◌, arith,
}
use lighter_integration.Plugin.Canonical.Reading.{append-injective}
use lighter_integration.Sequencer.Identity.{Primitives}
use lighter_integration.Sequencer.Records.Merkle.{merkle_parent, climb, merkle_verify}

-- Two different messages with one Keccak digest.
pub record KeccakCollision (primitives : Primitives) : Type 0 where
  pub left : Bytes
  pub right : Bytes
  pub differ : left ≢ right
  pub same : primitives.keccak256 left ≡ primitives.keccak256 right

-- Keccak-256 has 32 bytes.
abbrev pub HasDigestSize : Primitives → Type 0
HasDigestSize primitives = (message : Bytes) → length (primitives.keccak256 message) ≡ 32

abbrev pub IsPath : List Hash32 → Type 0
IsPath path = All (λ s. length s ≡ 32) path

pub same_message :
    (primitives : Primitives) (a b : Bytes)
    → primitives.keccak256 a ≡ primitives.keccak256 b
    → (a ≡ b) ⊎ KeccakCollision primitives
same_message primitives a b e = elim (bytes_dec a b) [
  | inl s ↦ inl s
  | inr n ↦ inr (record { left = a; right = b; differ = n; same = e })
]

module _ (primitives : Primitives) where
  merkle_parent-injective :
      (x y s t : Hash32)
      → length x ≡ length y
      → merkle_parent primitives x s ≡ merkle_parent primitives y t
      → ((x ≡ y) × (s ≡ t)) ⊎ KeccakCollision primitives
  unfolding merkle_parent
  merkle_parent-injective x y s t l e = elim (same_message primitives _ _ e) [
    | inl same ↦
        let (front, back) =
          append-injective ((1 ∷ []) ++ x) ((1 ∷ []) ++ y) s t (omega (arith, l)) same in
        inl ((append-injective (1 ∷ []) (1 ∷ []) x y refl front).1, back)
    | inr c ↦ inr c
  ]

  -- the digest of one step up, on either side
  joined : Bool → Hash32 → Hash32 → Hash32
  joined even x s = if even then merkle_parent primitives x s else merkle_parent primitives s x

  length-joined :
      HasDigestSize primitives → (even : Bool) (x s : Hash32) → length (joined even x s) ≡ 32
  unfolding joined merkle_parent
  length-joined size true x s = size _
  length-joined size false x s = size _

  joined-injective :
      (even : Bool) (x y s t : Hash32)
      → length x ≡ length y
      → length s ≡ length t
      → (joined even x s ≡ joined even y t) ⊎ KeccakCollision primitives
      → (x ≡ y) ⊎ KeccakCollision primitives
  unfolding joined
  joined-injective even x y s t l m (inr c) = inr c
  joined-injective true x y s t l m (inl e) = elim (merkle_parent-injective x y s t l e) [
    | inl both ↦ inl both.0
    | inr c ↦ inr c
  ]
  joined-injective false x y s t l m (inl e) = elim (merkle_parent-injective s t x y m e) [
    | inl both ↦ inl both.1
    | inr c ↦ inr c
  ]

  climb-injective :
      HasDigestSize primitives
      → (i : ℕ) (x y : Hash32) (p q : List Hash32) → length p ≡ length q
      → length x ≡ 32
      → length y ≡ 32
      → IsPath p
      → IsPath q
      → climb primitives x i p ≡ climb primitives y i q
      → (x ≡ y) ⊎ KeccakCollision primitives
  unfolding climb joined
  climb-injective size i x y [] [] l hx hy hp hq e = inl e
  climb-injective size i x y [] (t ∷ q) l hx hy hp hq e = absurd (omega arith)
  climb-injective size i x y (s ∷ p) [] l hx hy hp hq e = absurd (omega arith)
  climb-injective size i x y (s ∷ p) (t ∷ q) l hx hy (hs, hp) (ht, hq) e =
      joined-injective (i % 2 == 0) x y s t (hx ∙ sym hy) (hs ∙ sym ht) (
        climb-injective size (i / 2) (joined (i % 2 == 0) x s) (joined (i % 2 == 0) y t) p q
          (omega arith) (length-joined size (i % 2 == 0) x s) (length-joined size (i % 2 == 0) y t)
          hp hq e)

  -- Two leaves that verify at one index under one root, by paths of one length, are the same leaf,
  -- or Keccak has a collision.
  pub merkle_verify_binds :
      HasDigestSize primitives
      → (root x y : Hash32) (i : ℕ) (p q : List Hash32) → length p ≡ length q
      → length x ≡ 32
      → length y ≡ 32
      → IsPath p
      → IsPath q
      → merkle_verify primitives root x i p ≡ true
      → merkle_verify primitives root y i q ≡ true
      → (x ≡ y) ⊎ KeccakCollision primitives
  unfolding merkle_verify
  merkle_verify_binds size root x y i p q l hx hy hp hq ex ey =
      climb-injective size i x y p q l hx hy hp hq (
        (bytes_eq_iff (climb primitives x i p) root).0 ex
        ∙ sym ((bytes_eq_iff (climb primitives y i q) root).0 ey))
