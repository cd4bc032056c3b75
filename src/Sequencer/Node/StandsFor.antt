-- ===== src/Sequencer/Node/StandsFor.antt =====
-- One anchor that `maybe_anchor` (crates/sequencer/src/node.rs) makes, and the log and the seals of its
-- span.
use lighter_integration.Base.{
  ℕ, suc, ◌+◌, ◌-◌, ◌*◌, ◌^◌, ◌<◌, ◌≤◌, ◌≡◌, refl, ap, ◌∙◌, Bool, true, false, Hash32, List, [],
  Option, none, some, get_elem?, Result, ok, err, length, replicate, if◌then◌else◌, wrap, ◌!=◌, ◌⊎◌,
  inl, inr, arith,
}
use mathlib.Core.Path.{subst}
use native.Mathlib.Decide.{dec_lt}
use lighter_integration.Sequencer.Identity.{Primitives, Recovers, address}
use lighter_integration.Sequencer.Records.{SegmentSeal, log_genesis, hash_group_element}
use lighter_integration.Sequencer.Store.{SealedTick}
use lighter_integration.Sequencer.Transcript.{
  TranscriptProof, TranscriptViolation, optimistic, predicate_commitment, verify_span,
}
use lighter_integration.Sequencer.Transcript.Valid.{Span, verify_span-Span}
use lighter_integration.Sequencer.Anchor.{Anchor, anchor_sign, anchor_verify_sig}
use lighter_integration.Sequencer.Anchor.Signing.{anchor_verify_sig-anchor_sign}
use lighter_integration.Sequencer.Node.Rounds.{length-seals_from}
use lighter_integration.Sequencer.Node.{Node}
use lighter_integration.Sequencer.Node.Anchors.{
  get, c_prev_or, seals_from, last_end, span_proof, anchor_of, next_anchor,
}
use lighter_integration.Sequencer.Node.Spans.{seals_from-full, Span-last, replay_prove-eq-ok}

-- An anchor of the node: it is signed; it has the seals of as many segments as an anchor spans, each
-- from the store, and the hash of the last end; and the transcript commits to a replay of its ticks, from
-- the commitment before the first one to that of the anchor, if there is a tick.
pub record StandsFor (primitives : Primitives) (node : Node) (a : Anchor) : Type 0 where
  pub signed : anchor_verify_sig primitives a (address primitives node.identity) ≡ true
  pub spans : a.first_segment + node.config.params.anchor_every_segments ≡ a.last_segment + 1
  pub full : length a.segment_seals ≡ node.config.params.anchor_every_segments
  pub sealed :
      (i : ℕ)
      → i < node.config.params.anchor_every_segments
      → (seal : SegmentSeal) × (get_elem? a.segment_seals i ≡ some seal)
        × (get (a.first_segment + i) node.store.segments ≡ some seal)
  pub ended :
      (x_end : ℕ) × (last_end a.segment_seals ≡ some x_end)
      × (a.x_b_hash ≡ hash_group_element primitives x_end)
  pub c_after : Hash32
  pub replays :
      verify_span primitives node.config.params.epoch
        (address primitives node.identity)
        (c_prev_or
          (log_genesis primitives node.config.params.epoch)
          (get a.first_tick node.store.ticks))
        a.first_tick
        a.last_tick
        (λ t. get t node.store.ticks)
        []
      ≡ ok c_after
  pub committed :
      a.transcript
      ≡ optimistic (
          predicate_commitment primitives node.config.params.epoch a.first_tick a.last_tick
            (c_prev_or
              (log_genesis primitives node.config.params.epoch)
              (get a.first_tick node.store.ticks))
            c_after)
  pub last : (a.last_tick < a.first_tick) ⊎ (a.c_b ≡ c_after)

module _ (primitives : Primitives) (node : Node) (attest : ℕ → ℕ → Hash32) where
  abbrev span_start : ℕ
  span_start = wrap (node.next_anchor_after_segment + 1) - node.config.params.anchor_every_segments

  abbrev span_seals : List SegmentSeal
  span_seals =
      seals_from node.store.segments (node.next_anchor_after_segment + 1 - span_start) span_start

  abbrev span_first : ℕ
  span_first = wrap (wrap (span_start * node.config.params.segment_ticks) + 1)

  abbrev span_last : ℕ
  span_last = wrap (wrap (node.next_anchor_after_segment + 1) * node.config.params.segment_ticks)

  span_end :
      (c : Hash32) (last_sealed : SealedTick)
      → span_first ≤ span_last
      → get span_last node.store.ticks ≡ some last_sealed
      → verify_span primitives node.config.params.epoch
          (address primitives node.identity)
          (c_prev_or
            (log_genesis primitives node.config.params.epoch)
            (get span_first node.store.ticks))
          span_first
          span_last
          (λ t. get t node.store.ticks)
          []
        ≡ ok c
      → last_sealed.record_of.c_t ≡ c
  span_end c last_sealed le found replays =
      let ticks : ℕ → Option SealedTick = λ t. get t node.store.ticks in
      let before =
        c_prev_or (log_genesis primitives node.config.params.epoch)
          (get span_first node.store.ticks) in
      let size : span_last + 1 - span_first ≡ suc (span_last - span_first) = omega (arith, le) in
      let at : span_first + (span_last - span_first) ≡ span_last = omega (arith, le) in
      Span-last primitives node.config.params.epoch (address primitives node.identity) ticks
        (span_last - span_first) span_first before c [] last_sealed
        (subst
          (λ (n : ℕ).
            Span primitives node.config.params.epoch (address primitives node.identity) ticks n
              span_first before c [])
          size
          (verify_span-Span primitives node.config.params.epoch (address primitives node.identity)
            before c span_first span_last ticks [] replays))
        (ap ticks at ∙ found)

  anchor_of-StandsFor :
      (last_sealed : SealedTick) (c : Hash32) (transcript : TranscriptProof) (x_end : ℕ)
      → Recovers primitives
      → node.next_anchor_after_segment + 1 < 2 ^ 64
      → length span_seals ≡ node.config.params.anchor_every_segments
      → get span_last node.store.ticks ≡ some last_sealed
      → span_proof primitives node span_first span_last ≡ ok (c, transcript)
      → last_end span_seals ≡ some x_end
      → StandsFor primitives node (
          anchor_of primitives node attest span_start node.next_anchor_after_segment span_seals
            x_end last_sealed transcript)
  unfolding anchor_of span_proof anchor_sign
  anchor_of-StandsFor last_sealed c transcript x_end law few full found proof ended =
      let (replays, committed) =
        replay_prove-eq-ok primitives node.config.params.epoch (address primitives node.identity)
          (c_prev_or (log_genesis primitives node.config.params.epoch)
            (get span_first node.store.ticks))
          span_first span_last (λ t. get t node.store.ticks) c transcript proof in
      let made =
        anchor_of primitives node attest span_start node.next_anchor_after_segment span_seals x_end
          last_sealed transcript in
      record {
        signed =
            anchor_verify_sig-anchor_sign primitives law (record made { sig = replicate 65 0 })
              node.identity;
        spans = omega (
          arith,
          full,
          few,
          length-seals_from node.store.segments (node.next_anchor_after_segment + 1 - span_start)
              span_start,
        );
        full = full;
        sealed = λ i low.
            let count = node.next_anchor_after_segment + 1 - span_start in
            let most = length-seals_from node.store.segments count span_start in
            let exact : length span_seals ≡ count = omega (arith, full, most, few) in
            seals_from-full node.store.segments count span_start i exact
              (omega (arith, low, full, exact));
        ended = (x_end, ended, refl);
        c_after = c;
        replays = replays;
        committed = committed;
        last = elim (dec_lt span_last span_first) [
          | yes none_in ↦ inl none_in
          | no some_in ↦ inr (span_end c last_sealed (omega (arith, some_in)) found replays)
        ];
      }

  -- The anchor whose last segment is the next one to anchor.
  abbrev pub IsNext : Anchor → Type 0
  IsNext a = (a.last_segment ≡ node.next_anchor_after_segment) × StandsFor primitives node a

  pub next_anchor-StandsFor :
      (a : Anchor)
      → Recovers primitives
      → node.next_anchor_after_segment + 1 < 2 ^ 64
      → next_anchor primitives node attest ≡ some a
      → IsNext a
  unfolding next_anchor
  next_anchor-StandsFor a law few h =
      from_seals (length span_seals != node.config.params.anchor_every_segments) refl h
    where
      made : ℕ → SealedTick → TranscriptProof → Anchor
      made x_end last_sealed transcript =
          anchor_of primitives node attest span_start node.next_anchor_after_segment span_seals
            x_end last_sealed transcript

      with_end : SealedTick → TranscriptProof → Option ℕ → Option Anchor
      with_end s transcript o = elim o [ none ↦ none | some x_end ↦ some (made x_end s transcript) ]

      with_proof :
          SealedTick → Result TranscriptViolation (Hash32 × TranscriptProof) → Option Anchor
      with_proof s r = elim r [
        | err v ↦ none
        | ok (c, transcript) ↦ with_end s transcript (last_end span_seals)
      ]

      with_last : Option SealedTick → Option Anchor
      with_last o = elim o [
        | none ↦ none
        | some s ↦ with_proof s (span_proof primitives node span_first span_last)
      ]

      from_end :
          (s : SealedTick) (c : Hash32) (transcript : TranscriptProof)
          → length span_seals ≡ node.config.params.anchor_every_segments
          → get span_last node.store.ticks ≡ some s
          → span_proof primitives node span_first span_last ≡ ok (c, transcript)
          → (o : Option ℕ) → last_end span_seals ≡ o
          → with_end s transcript o ≡ some a
          → IsNext a
      from_end s c transcript full found proof none e h = absurd (cc h)
      from_end s c transcript full found proof (some x_end) e h =
          let same : made x_end s transcript ≡ a = cc h in
          subst IsNext same
            (refl, anchor_of-StandsFor s c transcript x_end law few full found proof e)

      from_proof :
          (s : SealedTick)
          → length span_seals ≡ node.config.params.anchor_every_segments
          → get span_last node.store.ticks ≡ some s
          → (r : Result TranscriptViolation (Hash32 × TranscriptProof))
          → span_proof primitives node span_first span_last ≡ r
          → with_proof s r ≡ some a
          → IsNext a
      from_proof s full found (err v) e h = absurd (cc h)
      from_proof s full found (ok (c, transcript)) e h =
          from_end s c transcript full found e (last_end span_seals) refl h

      from_last :
          length span_seals ≡ node.config.params.anchor_every_segments
          → (o : Option SealedTick) → get span_last node.store.ticks ≡ o
          → with_last o ≡ some a
          → IsNext a
      from_last full none e h = absurd (cc h)
      from_last full (some s) e h =
          from_proof s full e (span_proof primitives node span_first span_last) refl h

      from_seals :
          (b : Bool)
          → (length span_seals != node.config.params.anchor_every_segments) ≡ b
          → (if b then none else with_last (get span_last node.store.ticks)) ≡ some a
          → IsNext a
      from_seals true e h = absurd (cc h)
      from_seals false e h =
          let full : length span_seals ≡ node.config.params.anchor_every_segments =
            ground (arith, e) in
          from_last full (get span_last node.store.ticks) refl h
