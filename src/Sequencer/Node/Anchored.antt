-- ===== src/Sequencer/Node/Anchored.antt =====
-- The anchors that `maybe_anchor` (crates/sequencer/src/node.rs) adds, span by span.
use lighter_integration.Base.{
  ℕ, zero, suc, ◌+◌, ◌^◌, ◌<◌, wrap, arith, ◌≡◌, refl, sym, ◌∙◌, Bool, Hash32, List, [], ◌∷◌, ◌++◌,
  All, Option, none, some,
}
use mathlib.Core.List.{append_assoc, append-nil}
use lighter_integration.Sequencer.Identity.{Primitives, Recovers}
use lighter_integration.Sequencer.Anchor.{Anchor}
use lighter_integration.Sequencer.Node.{Node}
use lighter_integration.Sequencer.Node.Anchors.{
  keys_bound, next_anchor, push_anchor, anchor_rounds, maybe_anchor,
}
use lighter_integration.Sequencer.Node.StandsFor.{StandsFor, next_anchor-StandsFor}
use lighter_integration.Sequencer.Node.Rounds.{next_anchor-below}
use mathlib.Core.Path.{subst}

-- Anchors of spans of `every` segments, one after the other, of which the first ends at a segment.
abbrev pub Consecutive : ℕ → ℕ → List Anchor → Type 0
Consecutive every span_end [] = Unit
Consecutive every span_end (a ∷ anchors) =
    (a.last_segment ≡ span_end) × Consecutive every (span_end + every) anchors

-- The anchors that are added stand for the node, and follow on those that it has made.
abbrev pub AddsAnchors : Primitives → Node → Node → Type 0
AddsAnchors primitives node next =
    (new : List Anchor) × (next.anchors ≡ node.anchors ++ new)
    × All (StandsFor primitives node) new
    × Consecutive node.config.params.anchor_every_segments node.next_anchor_after_segment new

module _ (primitives : Primitives) (attest : ℕ → ℕ → Hash32) (takes : Bool) where
  -- Pushing an anchor changes nothing that anchors stand for.
  StandsFor-push_anchor :
      (node : Node) (pushed : Anchor) (new : List Anchor)
      → All (StandsFor primitives (push_anchor primitives takes pushed node)) new
      → All (StandsFor primitives node) new
  unfolding push_anchor
  StandsFor-push_anchor node pushed [] h = tt
  StandsFor-push_anchor node pushed (a ∷ new) (s, h) = (
    record {
      signed = s.signed;
      full = s.full;
      spans = s.spans;
      sealed = s.sealed;
      ended = s.ended;
      c_after = s.c_after;
      replays = s.replays;
      committed = s.committed;
      last = s.last;
    },
    StandsFor-push_anchor node pushed new h,
  )

  anchor_rounds-AddsAnchors :
      (fuel : ℕ) (node : Node)
      → Recovers primitives
      → keys_bound node.store.segments + node.config.params.anchor_every_segments < 2 ^ 64
      → node.next_anchor_after_segment + 1 < 2 ^ 64
      → AddsAnchors primitives node (anchor_rounds primitives fuel attest takes node)
  unfolding anchor_rounds push_anchor
  anchor_rounds-AddsAnchors zero node law bounded small =
      ([], sym (append-nil node.anchors), tt, tt)
  anchor_rounds-AddsAnchors (suc fuel) node law bounded small =
      from (next_anchor primitives node attest) refl (λ a small'.
        anchor_rounds-AddsAnchors fuel (push_anchor primitives takes a node) law bounded small')
    where
      every : ℕ
      every = node.config.params.anchor_every_segments

      next : ℕ
      next = wrap (node.next_anchor_after_segment + every)

      pushed : Anchor → Node
      pushed a = anchor_rounds primitives fuel attest takes (push_anchor primitives takes a node)

      from :
          (o : Option Anchor)
          → next_anchor primitives node attest ≡ o
          → ((a : Anchor)
              → next + 1 < 2 ^ 64
              → AddsAnchors primitives (push_anchor primitives takes a node) (pushed a))
          → AddsAnchors primitives node (elim o [ none ↦ node | some a ↦ pushed a ])
      from none e rest = ([], sym (append-nil node.anchors), tt, tt)
      from (some a) e rest =
          let (_, below) = next_anchor-below primitives node attest a small e in
          let plain : next ≡ node.next_anchor_after_segment + every =
            omega (arith, below, bounded) in
          let (new, added, stand, row) = rest a (omega (arith, plain, below, bounded)) in
          let (last, stands) = next_anchor-StandsFor primitives node attest a law small e in
          (
            a ∷ new,
            added ∙ append_assoc node.anchors (a ∷ []) new,
            (stands, StandsFor-push_anchor node a new stand),
            (last, subst (λ n. Consecutive every n new) plain row),
          )

  -- Under the laws of ECDSA, maybe_anchor only adds anchors, of consecutive spans from the next
  -- segment to anchor on, and each one verifies at the address of the node, carries the kept seals
  -- of its segments in order with the hash of the last end, and commits to an accepted replay of its
  -- ticks from the commitment before the first one; if the span has a tick, that replay ends in the
  -- commitment of the anchor; the number of the next segment to anchor, and the numbers of the
  -- sealed segments with a span added, are below 2^64.
  pub maybe_anchor-AddsAnchors :
      (node : Node)
      → Recovers primitives
      → keys_bound node.store.segments + node.config.params.anchor_every_segments < 2 ^ 64
      → node.next_anchor_after_segment + 1 < 2 ^ 64
      → AddsAnchors primitives node (maybe_anchor primitives attest takes node)
  unfolding maybe_anchor
  maybe_anchor-AddsAnchors node law bounded small =
      anchor_rounds-AddsAnchors (keys_bound node.store.segments + 1) node law bounded small
