-- ===== src/Sequencer/Transcript/Binding.antt =====
-- The chain of log commitments (crates/sequencer/src/records.rs, transcript.rs): what two spans that end
-- in one commitment have in common.
use lighter_integration.Base.{
  ℕ, zero, suc, ◌+◌, ◌≡◌, refl, sym, ◌∙◌, Bytes, Hash32, List, [], ◌∷◌, ◌++◌, Option, some, map,
  length, length-append, codes, ◌⊎◌, inl, inr, arith,
}
use lighter_integration.Plugin.Canonical.{to_be_bytes}
use lighter_integration.Plugin.Canonical.Reading.{append-injective}
use lighter_integration.Sequencer.Identity.{Primitives, Address}
use lighter_integration.Sequencer.Records.{log_step, x_hash, leaf}
use lighter_integration.Sequencer.Records.Merkle.{
  empty_batch_root, merkle_root, root_of, next_level,
}
use lighter_integration.Sequencer.Records.Merkle.Binding.{
  KeccakCollision, HasDigestSize, IsPath, same_message,
}
use lighter_integration.Sequencer.Records.Merkle.Sizes.{next_level-IsPath, leaves-IsPath}
use lighter_integration.Sequencer.Store.{SealedTick}
use lighter_integration.Sequencer.Transcript.Valid.{ValidTick, Span, seen_after}

module _ (primitives : Primitives) where
  root_of-size :
      HasDigestSize primitives
      → (fuel : ℕ) (level : List Hash32) (root : Hash32) → IsPath level
      → root_of primitives fuel level ≡ some root
      → length root ≡ 32
  unfolding root_of
  root_of-size size fuel [] root h e = cc
  root_of-size size fuel (a ∷ []) root h e = let same : a ≡ root = cc e in rw (← same) h.0
  root_of-size size zero (a ∷ b ∷ level) root h e = cc
  root_of-size size (suc fuel) (a ∷ b ∷ level) root h e =
      root_of-size size fuel (next_level primitives (a ∷ b ∷ level)) root
        (next_level-IsPath primitives size (a ∷ b ∷ level)) e

  merkle_root-size :
      HasDigestSize primitives
      → (leaves : List Hash32) (root : Hash32) → IsPath leaves
      → merkle_root primitives leaves ≡ some root
      → length root ≡ 32
  unfolding merkle_root empty_batch_root
  merkle_root-size size [] root h e =
      let same : empty_batch_root primitives ≡ root = cc e in rw (← same) (size _)
  merkle_root-size size (a ∷ leaves) root h e =
      root_of-size size (length (a ∷ leaves)) (a ∷ leaves) root h e

  -- The commitment after a tick determines the commitment before it, the batch root and the state.
  log_step-injective :
      (c c' : Hash32) (t : ℕ) (root root' x x' : Hash32)
      → length c ≡ length c'
      → length root ≡ length root'
      → log_step primitives c t root x ≡ log_step primitives c' t root' x'
      → ((c ≡ c') × (root ≡ root') × (x ≡ x')) ⊎ KeccakCollision primitives
  unfolding log_step
  log_step-injective c c' t root root' x x' l m e = elim (same_message primitives _ _ e) [
    | inr k ↦ inr k
    | inl same ↦
        let (front, states) =
          append-injective (front_of c root) (front_of c' root') x x' fronts same in
        let (middle, roots) =
          append-injective (middle_of c) (middle_of c') root root' middles front in
        let head =
          (append-injective (codes "posq-log-v1" ++ c) (codes "posq-log-v1" ++ c') (to_be_bytes 8 t)
            (to_be_bytes 8 t) heads middle).0 in
        inl (
          (append-injective (codes "posq-log-v1") (codes "posq-log-v1") c c' refl head).1,
          roots,
          states,
        )
  ]
    where
      middle_of : Hash32 → Bytes
      middle_of c = codes "posq-log-v1" ++ c ++ to_be_bytes 8 t

      front_of : Hash32 → Hash32 → Bytes
      front_of c root = codes "posq-log-v1" ++ c ++ to_be_bytes 8 t ++ root

      heads : length (codes "posq-log-v1" ++ c) ≡ length (codes "posq-log-v1" ++ c')
      heads =
          omega (
            arith,
            length-append (codes "posq-log-v1") c,
            length-append (codes "posq-log-v1") c',
            l,
          )

      middles : length (middle_of c) ≡ length (middle_of c')
      middles = omega (
        arith,
        length-append (codes "posq-log-v1" ++ c) (to_be_bytes 8 t),
        length-append (codes "posq-log-v1" ++ c') (to_be_bytes 8 t),
        heads,
      )

      fronts : length (front_of c root) ≡ length (front_of c' root')
      fronts =
          omega (
            arith,
            length-append (middle_of c) root,
            length-append (middle_of c') root',
            middles,
            m,
          )

  ValidTick-root_size :
      HasDigestSize primitives
      → {epoch t : ℕ} {sequencer : Address} {c : Hash32} {seen : List Hash32} {s : SealedTick}
      → ValidTick primitives epoch sequencer t c seen s
      → length s.record_of.batch_root ≡ 32
  ValidTick-root_size size {s = s} v =
      merkle_root-size size (map (leaf primitives) s.entries) s.record_of.batch_root
        (leaves-IsPath primitives size s.entries) v.rooted

  ValidTick-c_size :
      HasDigestSize primitives
      → {epoch t : ℕ} {sequencer : Address} {c : Hash32} {seen : List Hash32} {s : SealedTick}
      → ValidTick primitives epoch sequencer t c seen s
      → length s.record_of.c_t ≡ 32
  unfolding log_step
  ValidTick-c_size size v = rw v.stepped (size _)

  module _ (epoch : ℕ) (sequencer : Address) (ticks ticks' : ℕ → Option SealedTick) where
    -- The two spans start from one commitment and have the batch roots and clock states in common.
    abbrev pub SameLog :
        (count t : ℕ) (c c' c_after : Hash32) (seen seen' : List Hash32)
        → Span primitives epoch sequencer ticks count t c c_after seen
        → Span primitives epoch sequencer ticks' count t c' c_after seen'
        → Type 0
    SameLog zero t c c' c_after seen seen' a b = c ≡ c'
    SameLog (suc count) t c c' c_after seen seen' (s, _, _, a) (s', _, _, b) =
        (c ≡ c')
        × (s.record_of.batch_root ≡ s'.record_of.batch_root)
        × (x_hash primitives s.record_of ≡ x_hash primitives s'.record_of)
        × SameLog count (t + 1) s.record_of.c_t s'.record_of.c_t c_after (seen_after seen s.entries)
            (seen_after seen' s'.entries) a b

    SameLog-start :
        (count t : ℕ) (c c' c_after : Hash32) (seen seen' : List Hash32)
        (a : Span primitives epoch sequencer ticks count t c c_after seen)
        (b : Span primitives epoch sequencer ticks' count t c' c_after seen')
        → SameLog count t c c' c_after seen seen' a b
        → c ≡ c'
    SameLog-start zero t c c' c_after seen seen' a b h = h
    SameLog-start (suc count) t c c' c_after seen seen' (s, _, _, a) (s', _, _, b) h = h.0

    -- Two valid spans of the same ticks that end in one log commitment, whoever published them,
    -- start from one commitment and have the same batch roots and clock states, or Keccak has a
    -- collision.
    pub log_commits :
        HasDigestSize primitives
        → (count t : ℕ) (c c' c_after : Hash32) (seen seen' : List Hash32) → length c ≡ length c'
        → (a : Span primitives epoch sequencer ticks count t c c_after seen)
        → (b : Span primitives epoch sequencer ticks' count t c' c_after seen')
        → SameLog count t c c' c_after seen seen' a b ⊎ KeccakCollision primitives
    log_commits size zero t c c' c_after seen seen' l a b = inl (a ∙ sym b)
    log_commits size (suc count) t c c' c_after seen seen' l (s, f, v, a) (s', f', v', b) =
        elim (log_commits size count (t + 1) s.record_of.c_t s'.record_of.c_t c_after
          (seen_after seen s.entries) (seen_after seen' s'.entries)
          (ValidTick-c_size size v ∙ sym (ValidTick-c_size size v')) a b) [
            | inr k ↦ inr k
            | inl rest ↦
                let same =
                  SameLog-start count (t + 1) s.record_of.c_t s'.record_of.c_t c_after _ _ a b
                    rest in
                elim (log_step-injective c c' t s.record_of.batch_root s'.record_of.batch_root _ _ l
                  (ValidTick-root_size size v ∙ sym (ValidTick-root_size size v'))
                  (sym v.stepped ∙ (same ∙ v'.stepped))) [
                    | inr k ↦ inr k
                    | inl (before, roots, states) ↦ inl (before, roots, states, rest)
                  ]
          ]
