-- ===== src/Sequencer/Anchor.antt =====
-- crates/sequencer/src/anchor.rs: the anchor, its signature and its calldata. The host is an argument of
-- the node.
pub mod Signing
use lighter_integration.Base.{
  ℕ, ◌-◌, Bool, Bytes, Hash32, List, [], ◌∷◌, ◌++◌, length, replicate, codes, Option, none, some,
  ltb, if◌then◌else◌,
}
use lighter_integration.Plugin.Canonical.{to_be_bytes}
use lighter_integration.Sequencer.Identity.{Primitives, Sig65, Address, sign, verify_signed}
use lighter_integration.Sequencer.Records.{SegmentSeal, hash_group_element}
use lighter_integration.Sequencer.Transcript.{TranscriptProof, optimistic, succinct}

-- Bytes after bytes, unless a panic came before.
abbrev pub followed : Option Bytes → Option Bytes → Option Bytes
followed none later = none
followed (some bytes) none = none
followed (some bytes) (some later) = some (bytes ++ later)

pub record Anchor : Type 0 where
  pub epoch : ℕ
  pub first_segment : ℕ
  pub last_segment : ℕ
  pub first_tick : ℕ
  pub last_tick : ℕ
  pub x_b_hash : Hash32
  pub c_b : Hash32
  pub segment_seals : List SegmentSeal
  pub receipts_root : Hash32
  pub da_attestation : Hash32
  pub transcript : TranscriptProof
  pub sig : Sig65

module _ (primitives : Primitives) where
  open primitives use {keccak256, biguint_to_bytes_be}

  unfoldable pub commitment_of : TranscriptProof → Hash32
  commitment_of (optimistic c) = c
  commitment_of (succinct system proof) = keccak256 proof

  -- `Anchor::transcript_commitment`
  unfoldable pub transcript_commitment : Anchor → Hash32
  unfolding commitment_of
  transcript_commitment a = commitment_of a.transcript

  -- `for seal in &self.segment_seals` of `signing_message`
  unfoldable pub end_hashes : List SegmentSeal → Bytes
  unfolding hash_group_element
  end_hashes [] = []
  end_hashes (seal ∷ seals) = hash_group_element primitives seal.x_end ++ end_hashes seals

  -- `Anchor::signing_message`
  unfoldable pub anchor_message : Anchor → Bytes
  unfolding end_hashes transcript_commitment
  anchor_message a =
      (6 ∷ codes "posq-anchor-v1")
      ++ (to_be_bytes 8 a.epoch
          ++ (to_be_bytes 8 a.first_segment
              ++ (to_be_bytes 8 a.last_segment
                  ++ (to_be_bytes 8 a.first_tick
                      ++ (to_be_bytes 8 a.last_tick
                          ++ (a.x_b_hash
                              ++ (a.c_b
                                  ++ (end_hashes a.segment_seals
                                      ++ (a.receipts_root
                                          ++ (a.da_attestation ++ transcript_commitment a))))))))))

  -- `Anchor::sign`
  unfoldable pub anchor_sign : Anchor → Bytes → Anchor
  unfolding anchor_message
  anchor_sign a identity = record a { sig = sign primitives identity (anchor_message a) }

  -- `Anchor::verify_sig`
  unfoldable pub anchor_verify_sig : Anchor → Address → Bool
  unfolding anchor_message
  anchor_verify_sig a sequencer = verify_signed primitives (anchor_message a) a.sig sequencer

  -- `pad256`; `none` is the panic of the slice for an element of more than 256 bytes.
  unfoldable pub pad256 : ℕ → Option Bytes
  pad256 x =
      let bytes = biguint_to_bytes_be x in
      if ltb 256 (length bytes) then none else some (replicate (256 - length bytes) 0 ++ bytes)

  -- `for seal in &self.segment_seals` of `calldata`
  unfoldable pub seal_words : List SegmentSeal → Option Bytes
  unfolding pad256
  seal_words [] = some []
  seal_words (seal ∷ seals) =
      let rest = seal_words seals in
      followed (some (to_be_bytes 8 seal.segment)) (
        followed (pad256 seal.y) (
          followed (pad256 seal.x_end) (
            followed (pad256 seal.proof.pi)
              (followed (some (to_be_bytes 8 seal.proof.iterations)) rest))))

  -- `Anchor::calldata`
  unfoldable pub calldata : Anchor → Option Bytes
  unfolding transcript_commitment seal_words
  calldata a =
      let words = seal_words a.segment_seals in
      followed
        (some (
          to_be_bytes 8 a.epoch
          ++ (to_be_bytes 8 a.first_segment
              ++ (to_be_bytes 8 a.last_segment
                  ++ (to_be_bytes 8 a.first_tick
                      ++ (to_be_bytes 8 a.last_tick
                          ++ (a.x_b_hash
                              ++ (a.c_b
                                  ++ (a.receipts_root
                                      ++ (a.da_attestation
                                          ++ (transcript_commitment a
                                              ++ (a.sig
                                                  ++ to_be_bytes 4
                                                      (length a.segment_seals)))))))))))))
        words
