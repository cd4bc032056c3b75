-- ===== src/Sequencer/Node/Anchors.antt =====
-- `maybe_anchor` of crates/sequencer/src/node.rs. What the data-availability store attests for a span of
-- ticks, and whether the host takes an anchor, are arguments.
use lighter_integration.Base.{
  ℕ, zero, suc, ◌+◌, ◌-◌, ◌*◌, Bool, Hash32, List, [], ◌∷◌, ◌++◌, Option, none, some, length,
  replicate, leb, ◌==◌, ◌!=◌, Result, ok, err, if◌then◌else◌, wrap,
}
use lighter_integration.Plugin.Canonical.{to_be_bytes}
use lighter_integration.Sequencer.Identity.{Primitives, address}
use lighter_integration.Sequencer.Records.{
  Receipt, SegmentSeal, digest_genesis, log_genesis, hash_group_element,
}
use lighter_integration.Sequencer.Records.Merkle.{merkle_root}
use lighter_integration.Sequencer.Store.{SealedTick}
use lighter_integration.Sequencer.Transcript.{TranscriptProof, TranscriptViolation, replay_prove}
use lighter_integration.Sequencer.Anchor.{Anchor, anchor_sign}
use lighter_integration.Sequencer.Node.{Node}
use lighter_integration.Sequencer.Node.Tick.{root_or_empty}

-- `map.get(&key)`
unfoldable pub get {ℓ} : {A : Type ℓ} → ℕ → List (ℕ × A) → Option A
get key [] = none
get key ((k, v) ∷ map) = if k == key then some v else get key map

-- The number after the largest key.
unfoldable pub keys_bound {ℓ} : {A : Type ℓ} → List (ℕ × A) → ℕ
keys_bound [] = 0
keys_bound ((k, v) ∷ map) = let rest = keys_bound map in if leb rest k then k + 1 else rest

-- The segments that are there, of `count` from `s` on.
unfoldable pub seals_from : List (ℕ × SegmentSeal) → ℕ → ℕ → List SegmentSeal
unfolding get
seals_from segments zero s = []
seals_from segments (suc count) s = elim (get s segments) [
  | none ↦ seals_from segments count (s + 1)
  | some seal ↦ seal ∷ seals_from segments count (s + 1)
]

-- `list.last().map(f).unwrap_or(default)`
unfoldable pub last_digest_of : Hash32 → List Receipt → Hash32
last_digest_of d [] = d
last_digest_of d (r ∷ receipts) = last_digest_of r.d receipts

-- `seals.last().unwrap().x_end`; an empty list panics there.
unfoldable pub last_end : List SegmentSeal → Option ℕ
last_end [] = none
last_end (s ∷ []) = some s.x_end
last_end (s ∷ t ∷ seals) = last_end (t ∷ seals)

-- the commitment before the first tick
abbrev pub c_prev_or : Hash32 → Option SealedTick → Hash32
c_prev_or genesis none = genesis
c_prev_or genesis (some sealed) = sealed.record_of.c_prev

module _ (primitives : Primitives) where
  open primitives use {keccak256}

  -- the leaves of the receipts root, for `count` ticks from `t` on
  unfoldable pub receipt_leaves : ℕ → List (ℕ × SealedTick) → ℕ → ℕ → List Hash32
  unfolding get last_digest_of digest_genesis
  receipt_leaves epoch ticks zero t = []
  receipt_leaves epoch ticks (suc count) t = elim (get t ticks) [
    | none ↦ receipt_leaves epoch ticks count (t + 1)
    | some sealed ↦
        keccak256
          (to_be_bytes 8 t ++ last_digest_of (digest_genesis primitives epoch t) sealed.receipts)
        ∷ receipt_leaves epoch ticks count (t + 1)
  ]

  -- The anchor of a span whose segments, last record and transcript are there.
  unfoldable pub anchor_of :
      Node → (ℕ → ℕ → Hash32) → ℕ → ℕ → List SegmentSeal → ℕ → SealedTick → TranscriptProof → Anchor
  unfolding receipt_leaves hash_group_element anchor_sign merkle_root
  anchor_of node attest span_start span_end seals x_end last_sealed transcript =
      let params = node.config.params in
      let first_tick = wrap (wrap (span_start * params.segment_ticks) + 1) in
      let last_tick = wrap (wrap (span_end + 1) * params.segment_ticks) in
      anchor_sign primitives
        (record {
          epoch = params.epoch;
          first_segment = span_start;
          last_segment = span_end;
          first_tick = first_tick;
          last_tick = last_tick;
          x_b_hash = hash_group_element primitives x_end;
          c_b = last_sealed.record_of.c_t;
          segment_seals = seals;
          receipts_root = root_or_empty (
              merkle_root primitives (
                receipt_leaves params.epoch node.store.ticks (last_tick + 1 - first_tick)
                  first_tick));
          da_attestation = attest first_tick last_tick;
          transcript = transcript;
          sig = replicate 65 0;
        })
        node.identity

  -- the proof of the transcript of the span
  unfoldable pub span_proof : Node → ℕ → ℕ → Result TranscriptViolation (Hash32 × TranscriptProof)
  unfolding replay_prove get log_genesis
  span_proof node first_tick last_tick =
      replay_prove primitives node.config.params.epoch (address primitives node.identity)
        (c_prev_or (log_genesis primitives node.config.params.epoch)
          (get first_tick node.store.ticks))
        first_tick last_tick (λ t. get t node.store.ticks)

  -- One round of the loop: the anchor, or none where the code returns (or panics, without seals).
  unfoldable pub next_anchor : Node → (ℕ → ℕ → Hash32) → Option Anchor
  unfolding seals_from get last_end span_proof anchor_of
  next_anchor node attest =
      let params = node.config.params in
      let span_end = node.next_anchor_after_segment in
      let span_start = wrap (span_end + 1) - params.anchor_every_segments in
      let seals = seals_from node.store.segments (span_end + 1 - span_start) span_start in
      let first_tick = wrap (wrap (span_start * params.segment_ticks) + 1) in
      let last_tick = wrap (wrap (span_end + 1) * params.segment_ticks) in
      if length seals != params.anchor_every_segments
      then none
      else elim (get last_tick node.store.ticks) [
        | none ↦ none
        | some last_sealed ↦ elim (span_proof node first_tick last_tick) [
          | err v ↦ none
          | ok (c, transcript) ↦ elim (last_end seals) [
            | none ↦ none
            | some x_end ↦
                some (anchor_of node attest span_start span_end seals x_end last_sealed transcript)
          ]
        ]
      ]

  -- The anchor is posted, if the host takes it, and kept.
  unfoldable pub push_anchor : Bool → Anchor → Node → Node
  push_anchor takes a node = record node {
    posted = if takes then node.posted ++ a ∷ [] else node.posted;
    anchors = node.anchors ++ a ∷ [];
    next_anchor_after_segment =
        wrap (node.next_anchor_after_segment + node.config.params.anchor_every_segments);
  }

  -- The loop of `maybe_anchor`; a round per segment number and one more are enough (Node/Rounds).
  unfoldable pub anchor_rounds : ℕ → (ℕ → ℕ → Hash32) → Bool → Node → Node
  unfolding next_anchor push_anchor
  anchor_rounds zero attest takes node = node
  anchor_rounds (suc fuel) attest takes node = elim (next_anchor node attest) [
    | none ↦ node
    | some a ↦ anchor_rounds fuel attest takes (push_anchor takes a node)
  ]

  unfoldable pub maybe_anchor : (ℕ → ℕ → Hash32) → Bool → Node → Node
  unfolding anchor_rounds keys_bound
  maybe_anchor attest takes node =
      anchor_rounds (keys_bound node.store.segments + 1) attest takes node
