-- ===== src/Sequencer/Node/Rounds.antt =====
-- The rounds of the loop of `maybe_anchor` (crates/sequencer/src/node.rs).
use lighter_integration.Base.{
  ℕ, zero, suc, ◌+◌, ◌-◌, ◌*◌, ◌^◌, ◌<◌, ◌≤◌, ◌≡◌, refl, Bool, true, false, Hash32, List, [], ◌∷◌,
  Option, none, some, Result, ok, err, length, if◌then◌else◌, wrap, ◌!=◌, arith,
}
use mathlib.Core.Path.{subst}
use lighter_integration.Sequencer.Identity.{Primitives}
use lighter_integration.Sequencer.Records.{SegmentSeal}
use lighter_integration.Sequencer.Store.{SealedTick}
use lighter_integration.Sequencer.Transcript.{TranscriptProof, TranscriptViolation}
use lighter_integration.Sequencer.Anchor.{Anchor}
use lighter_integration.Sequencer.Node.{Node}
use lighter_integration.Sequencer.Node.Anchors.{
  get, keys_bound, seals_from, last_end, span_proof, anchor_of, next_anchor, push_anchor,
  anchor_rounds, maybe_anchor,
}
use lighter_integration.Sequencer.Node.Log.{get_below}

pub length-seals_from :
    (segments : List (ℕ × SegmentSeal)) (count s : ℕ) → length (seals_from segments count s) ≤ count
unfolding seals_from
length-seals_from segments zero s = omega arith
length-seals_from segments (suc count) s =
    from (get s segments) (length-seals_from segments count (s + 1))
  where
    from :
        (o : Option SegmentSeal)
        → length (seals_from segments count (s + 1)) ≤ count
        → length (elim o [
          | none ↦ seals_from segments count (s + 1)
          | some seal ↦ seal ∷ seals_from segments count (s + 1)
        ])
          ≤ suc count
    from none h = omega (arith, h)
    from (some seal) h = omega (arith, h)

-- Where all segments of a span are sealed, the last one is.
full-below :
    (segments : List (ℕ × SegmentSeal)) (count s : ℕ)
    → length (seals_from segments (suc count) s) ≡ suc count
    → s + count < keys_bound segments
unfolding seals_from
full-below segments zero s h = from (get s segments) refl h
  where
    from :
        (o : Option SegmentSeal)
        → get s segments ≡ o
        → length (elim o [ none ↦ [] | some seal ↦ seal ∷ [] ]) ≡ 1
        → s + 0 < keys_bound segments
    from none e h = absurd (omega (arith, h))
    from (some seal) e h = let below = get_below s segments seal e in omega (arith, below)
full-below segments (suc count) s h =
    from (get s segments) (length-seals_from segments (suc count) (s + 1))
      (λ e. full-below segments count (s + 1) e) h
  where
    later : List SegmentSeal
    later = seals_from segments (suc count) (s + 1)

    from :
        (o : Option SegmentSeal)
        → length later ≤ suc count
        → (length later ≡ suc count → s + 1 + count < keys_bound segments)
        → length (elim o [ none ↦ later | some seal ↦ seal ∷ later ]) ≡ suc (suc count)
        → s + suc count < keys_bound segments
    from none le rest h = absurd (omega (arith, le, h))
    from (some seal) le rest h = let below = rest (omega (arith, h)) in omega (arith, below)

-- A span with a last seal is not empty.
last_end-length : (seals : List SegmentSeal) (x : ℕ) → last_end seals ≡ some x → 0 < length seals
unfolding last_end
last_end-length [] x h = absurd (cc h)
last_end-length (s ∷ seals) x h = omega arith

-- The numbers of a round that makes an anchor.
full_span :
    (segments : List (ℕ × SegmentSeal)) (every span_end : ℕ)
    → span_end + 1 < 2 ^ 64
    → 0 < every
    → length (
        seals_from segments
          (span_end + 1 - (wrap (span_end + 1) - every))
          (wrap (span_end + 1) - every))
      ≡ every
    → span_end < keys_bound segments
full_span segments zero span_end small pos h = absurd (omega (arith, pos))
full_span segments (suc n) span_end small pos h =
    let start = wrap (span_end + 1) - suc n in
    let most = length-seals_from segments (span_end + 1 - start) start in
    let plain : wrap (span_end + 1) ≡ span_end + 1 = omega (arith, small) in
    let same : span_end + 1 - start ≡ suc n = omega (arith, most, h, plain) in
    let below =
      full-below segments n start
        (subst (λ (c : ℕ). length (seals_from segments c start) ≡ suc n) same h) in
    omega (arith, below, plain, same)

-- An anchor has a last seal.
last_needed :
    (make : SealedTick → Hash32 × TranscriptProof → ℕ → Anchor) (sealed : Option SealedTick)
    (proof : Result TranscriptViolation (Hash32 × TranscriptProof)) (end_of : Option ℕ) (a : Anchor)
    → elim sealed [
      | none ↦ none
      | some l ↦ elim proof [
        | err v ↦ none
        | ok p ↦ elim end_of [ none ↦ none | some x ↦ some (make l p x) ]
      ]
    ]
      ≡ some a
    → (x : ℕ) × (end_of ≡ some x)
last_needed make none proof end_of a h = absurd (cc h)
last_needed make (some l) (err v) end_of a h = absurd (cc h)
last_needed make (some l) (ok p) none a h = absurd (cc h)
last_needed make (some l) (ok p) (some x) a h = (x, refl)

module _ (primitives : Primitives) where
  pub next_anchor-below :
      (node : Node) (attest : ℕ → ℕ → Hash32) (a : Anchor)
      → node.next_anchor_after_segment + 1 < 2 ^ 64
      → next_anchor primitives node attest ≡ some a
      → (0 < node.config.params.anchor_every_segments)
        × (node.next_anchor_after_segment < keys_bound node.store.segments)
  unfolding next_anchor
  next_anchor-below node attest a small h = from (length seals != every) refl h
    where
      every : ℕ
      every = node.config.params.anchor_every_segments

      span_end : ℕ
      span_end = node.next_anchor_after_segment

      span_start : ℕ
      span_start = wrap (span_end + 1) - every

      seals : List SegmentSeal
      seals = seals_from node.store.segments (span_end + 1 - span_start) span_start

      first_tick : ℕ
      first_tick = wrap (wrap (span_start * node.config.params.segment_ticks) + 1)

      last_tick : ℕ
      last_tick = wrap (wrap (span_end + 1) * node.config.params.segment_ticks)

      made : Option Anchor
      made = elim (get last_tick node.store.ticks) [
        | none ↦ none
        | some last_sealed ↦ elim (span_proof primitives node first_tick last_tick) [
          | err v ↦ none
          | ok (c, transcript) ↦ elim (last_end seals) [
            | none ↦ none
            | some x_end ↦ some (
                anchor_of primitives node attest span_start span_end seals x_end last_sealed
                  transcript)
          ]
        ]
      ]

      from :
          (short : Bool)
          → (length seals != every) ≡ short
          → (if short then none else made) ≡ some a
          → (0 < every) × (span_end < keys_bound node.store.segments)
      from true e h = absurd (cc h)
      from false e h =
          let (x, last) =
            last_needed
              (λ l p x. anchor_of primitives node attest span_start span_end seals x l p.1)
              (get last_tick node.store.ticks) (span_proof primitives node first_tick last_tick)
              (last_end seals) a h in
          let some_seals = last_end-length seals x last in
          let full : length seals ≡ every = ground arith in
          let pos : 0 < every = omega (arith, some_seals, full) in
          (pos, full_span node.store.segments every span_end small pos full)

  anchor_rounds_end :
      (fuel : ℕ) (node : Node) (attest : ℕ → ℕ → Hash32) (takes : Bool)
      → keys_bound node.store.segments + node.config.params.anchor_every_segments < 2 ^ 64
      → node.next_anchor_after_segment + 1 < 2 ^ 64
      → keys_bound node.store.segments < node.next_anchor_after_segment + fuel
      → next_anchor primitives (anchor_rounds primitives fuel attest takes node) attest ≡ none
  unfolding anchor_rounds push_anchor
  anchor_rounds_end zero node attest takes bounded small enough =
      from (next_anchor primitives node attest) refl
    where
      from : (o : Option Anchor) → next_anchor primitives node attest ≡ o → o ≡ none
      from none e = refl
      from (some a) e =
          let (_, below) = next_anchor-below node attest a small e in
          absurd (omega (arith, below, enough))
  anchor_rounds_end (suc fuel) node attest takes bounded small enough =
      from (next_anchor primitives node attest) refl (λ a small' enough'.
        anchor_rounds_end fuel (push_anchor primitives takes a node) attest takes bounded small'
          enough')
    where
      every : ℕ
      every = node.config.params.anchor_every_segments

      next : ℕ
      next = wrap (node.next_anchor_after_segment + every)

      from :
          (o : Option Anchor)
          → next_anchor primitives node attest ≡ o
          → ((a : Anchor)
              → next + 1 < 2 ^ 64
              → keys_bound node.store.segments < next + fuel
              → next_anchor primitives
                  (anchor_rounds primitives fuel attest takes (push_anchor primitives takes a node))
                  attest
                ≡ none)
          → next_anchor primitives
              (elim o [
                | none ↦ node
                | some a ↦
                    anchor_rounds primitives fuel attest takes (push_anchor primitives takes a node)
              ])
              attest
            ≡ none
      from none e rest = e
      from (some a) e rest =
          let (pos, below) = next_anchor-below node attest a small e in
          let plain : next ≡ node.next_anchor_after_segment + every =
            omega (arith, below, bounded) in
          rest a (omega (arith, plain, below, bounded)) (omega (arith, plain, pos, enough))

  -- The loop of maybe_anchor ends by itself: after it, no further anchor can be made, if the number
  -- of the next segment to anchor, and the numbers of the sealed segments with a span added, are
  -- below 2^64.
  pub maybe_anchor_ends :
      (node : Node) (attest : ℕ → ℕ → Hash32) (takes : Bool)
      → keys_bound node.store.segments + node.config.params.anchor_every_segments < 2 ^ 64
      → node.next_anchor_after_segment + 1 < 2 ^ 64
      → next_anchor primitives (maybe_anchor primitives attest takes node) attest ≡ none
  unfolding maybe_anchor
  maybe_anchor_ends node attest takes bounded small =
      anchor_rounds_end (keys_bound node.store.segments + 1) node attest takes bounded small
        (omega arith)
