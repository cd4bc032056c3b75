-- ===== src/Sequencer/Fraud/Reorder.antt =====
-- Reorder proofs (crates/sequencer/src/fraud.rs) about a valid tick.
use lighter_integration.Base.{
  ℕ, ◌≡◌, ◌≢◌, sym, ap, ◌∙◌, true, false, Bytes, Hash32, bytes_eq, bytes_eq_iff, List, [], ◌∷◌,
  ◌++◌, some, map, get_elem?, length, length-append, codes, ◌⊎◌, inl, inr, arith, zero, suc,
}
use mathlib.Core.List.{append_assoc}
use lighter_integration.Plugin.Canonical.{to_be_bytes}
use lighter_integration.Plugin.Canonical.Reading.{append-injective, length-to_be_bytes}
use lighter_integration.Sequencer.Identity.{Primitives, Address}
use lighter_integration.Sequencer.Envelope.{bucket_code}
use lighter_integration.Sequencer.Records.{BatchEntry, leaf}
use lighter_integration.Sequencer.Records.Merkle.{merkle_root, merkle_path, merkle_verify}
use lighter_integration.Sequencer.Records.Merkle.Path.{merkle_path_verifies}
use lighter_integration.Sequencer.Records.Merkle.Sizes.{merkle_path-IsPath, leaves-IsPath}
use lighter_integration.Sequencer.Records.Merkle.Binding.{
  KeccakCollision, HasDigestSize, IsPath, same_message, merkle_verify_binds,
}
use lighter_integration.Sequencer.Store.{SealedTick}
use lighter_integration.Sequencer.Transcript.Valid.{ValidTick, Backed}
use lighter_integration.Sequencer.Fraud.{ReorderProof, reorder_verify}

front-injective :
    (f f' a b a' b' : Bytes) → length f ≡ length f' → f ++ a ++ b ≡ f' ++ a' ++ b' → f ≡ f'
front-injective f f' a b a' b' l e =
    (append-injective f f' (a ++ b) (a' ++ b') l
      (sym (append_assoc f a b) ∙ (e ∙ append_assoc f' a' b'))).0

-- The fields of a leaf before the commitment.
abbrev lead : BatchEntry → Bytes
lead e = codes "posq-leaf-v1" ++ to_be_bytes 8 e.tick ++ to_be_bytes 4 e.pos

length-lead : (a b : BatchEntry) → length (lead a) ≡ length (lead b)
length-lead a b =
    let at = length-append (codes "posq-leaf-v1" ++ to_be_bytes 8 a.tick) (to_be_bytes 4 a.pos) in
    let bt = length-append (codes "posq-leaf-v1" ++ to_be_bytes 8 b.tick) (to_be_bytes 4 b.pos) in
    let ah = length-append (codes "posq-leaf-v1") (to_be_bytes 8 a.tick) in
    let bh = length-append (codes "posq-leaf-v1") (to_be_bytes 8 b.tick) in
    omega (
      arith,
      at,
      bt,
      ah,
      bh,
      length-to_be_bytes 8 a.tick,
      length-to_be_bytes 8 b.tick,
      length-to_be_bytes 4 a.pos,
      length-to_be_bytes 4 b.pos,
    )

module _ (primitives : Primitives) where
  -- Two entries with one leaf have one commitment, or Keccak has a collision.
  pub leaf-injective :
      (a b : BatchEntry)
      → length a.h ≡ 32
      → length b.h ≡ 32
      → leaf primitives a ≡ leaf primitives b
      → (a.h ≡ b.h) ⊎ KeccakCollision primitives
  unfolding leaf
  leaf-injective a b ha hb e = elim (same_message primitives _ _ e) [
    | inr c ↦ inr c
    | inl same ↦
        let front =
          front-injective (lead a ++ a.h ++ (bucket_code a.bucket ∷ []))
            (lead b ++ b.h ++ (bucket_code b.bucket ∷ [])) _ _ _ _ (sizes a b ha hb) same in
        inl
          (append-injective (lead a) (lead b) a.h b.h (length-lead a b)
            (append-injective (lead a ++ a.h) (lead b ++ b.h) _ _ (commitments a b ha hb)
              front).0).1
  ]
    where
      commitments :
          (a b : BatchEntry)
          → length a.h ≡ 32
          → length b.h ≡ 32
          → length (lead a ++ a.h) ≡ length (lead b ++ b.h)
      commitments a b ha hb =
          omega (arith, length-append (lead a) a.h, length-append (lead b) b.h, length-lead a b)

      sizes :
          (a b : BatchEntry)
          → length a.h ≡ 32
          → length b.h ≡ 32
          → length (lead a ++ a.h ++ (bucket_code a.bucket ∷ []))
            ≡ length (lead b ++ b.h ++ (bucket_code b.bucket ∷ []))
      sizes a b ha hb = omega (
        arith,
        length-append (lead a ++ a.h) (bucket_code a.bucket ∷ []),
        length-append (lead b ++ b.h) (bucket_code b.bucket ∷ []),
        commitments a b ha hb,
      )

  get_elem?-map :
      (entries : List BatchEntry) (i : ℕ) (e : BatchEntry)
      → get_elem? entries i ≡ some e
      → get_elem? (map (leaf primitives) entries) i ≡ some (leaf primitives e)
  get_elem?-map [] i e h = cc
  get_elem?-map (x ∷ entries) zero e h = ap (λ y. some (leaf primitives y)) (cc h)
  get_elem?-map (x ∷ entries) (suc i) e h = get_elem?-map entries i e h

  -- Two entries that a proof and the published batch put at one position: the second has the first's
  -- commitment, or Keccak has a collision.
  same_place :
      HasDigestSize primitives
      → (entries : List BatchEntry) (root : Hash32) (i : ℕ) (e x : BatchEntry)
        (path honest : List Hash32)
      → merkle_root primitives (map (leaf primitives) entries) ≡ some root
      → get_elem? entries i ≡ some e
      → merkle_path primitives (map (leaf primitives) entries) i ≡ some honest
      → length path ≡ length honest
      → IsPath path
      → length e.h ≡ 32
      → length x.h ≡ 32
      → merkle_verify primitives root (leaf primitives x) i path ≡ true
      → (x.h ≡ e.h) ⊎ KeccakCollision primitives
  unfolding leaf
  same_place size entries root i e x path honest rooted at hp l ip he hx v =
      let (q, r, found, root', ok) =
        merkle_path_verifies primitives (map (leaf primitives) entries) i (leaf primitives e)
          (get_elem?-map entries i e at) in
      let same_path : q ≡ honest = cc (found, hp) in
      let same_root : r ≡ root = cc (root', rooted) in
      let honest_ok : merkle_verify primitives root (leaf primitives e) i honest ≡ true =
        cc (ok, same_path, same_root) in
      elim (merkle_verify_binds primitives size root (leaf primitives x) (leaf primitives e) i path
        honest l (size _) (size _) ip
        (merkle_path-IsPath primitives size (map (leaf primitives) entries) i honest
          (leaves-IsPath primitives size entries) hp)
        v honest_ok) [ inr c ↦ inr c | inl leaves ↦ leaf-injective x e hx he leaves ]

  accepted_parts :
      (p : ReorderProof) (sequencer : Address)
      → reorder_verify primitives p sequencer ≡ true
      → (p.conflicting_entry.pos ≡ p.receipt.pos)
        × (p.conflicting_entry.h ≢ p.receipt.h)
        × (merkle_verify primitives p.record_of.batch_root
              (leaf primitives p.conflicting_entry)
              p.conflicting_entry.pos
              p.merkle_path
            ≡ true)
  unfolding reorder_verify
  accepted_parts p sequencer h =
      let different : bytes_eq p.conflicting_entry.h p.receipt.h ≡ false = ground arith in
      (
        ground arith,
        λ e. cc (different, (bytes_eq_iff p.conflicting_entry.h p.receipt.h).1 e),
        ground arith,
      )

  -- A reorder proof with a receipt of a valid tick, that tick's record and a path as long as the
  -- published one is accepted only if Keccak has a collision.
  pub reorder_takes_collision :
      HasDigestSize primitives
      → (sequencer : Address) (epoch t : ℕ) (c : Hash32) (seen : List Hash32) (s : SealedTick)
        (p : ReorderProof) (honest : List Hash32)
      → ValidTick primitives epoch sequencer t c seen s
      → Backed primitives t s.entries p.receipt
      → p.record_of ≡ s.record_of
      → merkle_path primitives (map (leaf primitives) s.entries) p.receipt.pos ≡ some honest
      → length p.merkle_path ≡ length honest
      → IsPath p.merkle_path
      → length p.receipt.h ≡ 32
      → length p.conflicting_entry.h ≡ 32
      → reorder_verify primitives p sequencer ≡ true
      → KeccakCollision primitives
  unfolding reorder_verify
  reorder_takes_collision size sequencer epoch t c seen s p honest v b same hp l ip hr hx accepted =
      let (pos, other, climbs) = accepted_parts p sequencer accepted in
      let entry_size : length b.entry.h ≡ 32 = rw (← b.commitment) hr in
      let climbs' : merkle_verify primitives s.record_of.batch_root
            (leaf primitives p.conflicting_entry) p.receipt.pos p.merkle_path
          ≡ true =
        cc (climbs, pos, same) in
      elim (same_place size s.entries s.record_of.batch_root p.receipt.pos b.entry
        p.conflicting_entry p.merkle_path honest v.rooted b.at_position hp l ip entry_size hx
        climbs') [
          | inr collision ↦ collision
          | inl equal ↦ absurd (other (equal ∙ sym b.commitment))
        ]
