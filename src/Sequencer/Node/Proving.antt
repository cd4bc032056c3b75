-- ===== src/Sequencer/Node/Proving.antt =====
-- The proof of a segment that the coordinator (crates/sequencer/src/node.rs) receives, and the round of
-- the clock (crates/sequencer/src/clock.rs) that it is for.
use lighter_integration.Base.{
  ℕ, ◌<◌, ◌≡◌, refl, sym, ap, ◌∙◌, Bool, true, false, Bytes, Hash32, List, ◌++◌, map, Option, none,
  some, get_elem?, get_elem?-append, get_elem?-of_map, if◌then◌else◌, arith,
}
use mathlib.Core.Path.{subst}
use lighter_integration.Sequencer.Identity.{Primitives}
use lighter_integration.Sequencer.Records.{SegmentSeal, SequentialProof}
use lighter_integration.Sequencer.Store.{insert_segment}
use lighter_integration.Vdf.Posq.{Oracle}
use lighter_integration.Sequencer.Clock.{segment_proof}
use lighter_integration.Sequencer.Clock.Loop.{
  ClockConfig, ClockEvent, SegmentRound, y_of, x_end_of, round_proof, clock_rounds, run_clock,
}
use lighter_integration.Sequencer.Node.{Node, SeedInput}
use lighter_integration.Sequencer.Node.Anchors.{get}
use lighter_integration.Sequencer.Node.Coordinator.{
  entropy_or_zero, drop_key, keep_segment, seal_of, on_segment_proof, final_cutoff,
}
use lighter_integration.Sequencer.Node.SealView.{
  SealView, seal_view, seal_view-final_cutoff, seal_view-maybe_anchor,
}
use lighter_integration.Sequencer.Node.Clocked.{ends_of}
use lighter_integration.Sequencer.Node.Sealed.{ends_of-append, ends_of-events_of, end_of}
use lighter_integration.Sequencer.Node.Kept.{Kept, Sealed, Kept-drop, Kept-seal}

pub segment-end_of :
    (primitives : Primitives) (hash_to_group : Bytes → Bytes → ℕ) (cfg : ClockConfig)
    (r : SegmentRound) (segment y x_end : ℕ)
    → end_of primitives hash_to_group cfg r ≡ (segment, (y, x_end))
    → r.segment ≡ segment
unfolding end_of
segment-end_of primitives hash_to_group cfg r segment y x_end ends =
    ap (λ (e : ℕ × (ℕ × ℕ)). e.0) ends

module _ (primitives : Primitives) (hash_to_group : Bytes → Bytes → ℕ) (cfg : ClockConfig)
    (seeds : List SeedInput) where
  -- The end at an index among those that the clock sent is the end of the round at the index.
  pub round-ends_of :
      (sent rest : List ClockEvent) (i segment y x_end : ℕ)
      → sent ++ rest ≡ run_clock primitives hash_to_group cfg seeds
      → get_elem? (ends_of sent) i ≡ some (segment, (y, x_end))
      → (r : SegmentRound) × (get_elem? (clock_rounds primitives hash_to_group cfg seeds) i
          ≡ some r)
        × (end_of primitives hash_to_group cfg r ≡ (segment, (y, x_end)))
  unfolding run_clock
  round-ends_of sent rest i segment y x_end clock at =
      let rounds = clock_rounds primitives hash_to_group cfg seeds in
      let all : ends_of sent ++ ends_of rest ≡ map (end_of primitives hash_to_group cfg) rounds =
        sym (ends_of-append sent rest)
        ∙ ap ends_of clock
        ∙ ends_of-events_of primitives hash_to_group cfg rounds in
      get_elem?-of_map (end_of primitives hash_to_group cfg) rounds i (segment, (y, x_end))
        (ap (λ l. get_elem? l i) (sym all)
          ∙ get_elem?-append (ends_of sent) (ends_of rest) i (segment, (y, x_end)) at)

-- What a proof does to the seals.
module _ (primitives : Primitives) (node : Node) (segment : ℕ) (proof : SequentialProof)
    (attest : ℕ → ℕ → Hash32) (takes : Bool) where
  abbrev pub the_seal : ℕ × ℕ → SegmentSeal
  the_seal base =
      seal_of primitives node segment (entropy_or_zero (get segment node.entropies)) base proof

  seal_view-on_segment_proof-none :
      (written : Bool)
      → get segment node.seal_bases ≡ none
      → seal_view (on_segment_proof primitives segment proof written attest takes node)
        ≡ seal_view node
  unfolding on_segment_proof
  seal_view-on_segment_proof-none written h = rw (h, on_segment_proof) refl

  seal_view-on_segment_proof-some :
      (written : Bool) (base : ℕ × ℕ)
      → get segment node.seal_bases ≡ some base
      → seal_view (on_segment_proof primitives segment proof written attest takes node) ≡ record {
        segments = (keep_segment (the_seal base) written node.store).segments;
        bases = drop_key segment node.seal_bases;
        entropies = node.entropies;
        seeds = node.seeds;
      }
  unfolding on_segment_proof
  seal_view-on_segment_proof-some written base h =
      rw (h, on_segment_proof) (seal_view-maybe_anchor primitives attest takes _)

  pub seeds-on_segment_proof :
      (written : Bool)
      → (on_segment_proof primitives segment proof written attest takes node).seeds ≡ node.seeds
  seeds-on_segment_proof written = split (get segment node.seal_bases) refl
    where
      split :
          (o : Option (ℕ × ℕ))
          → get segment node.seal_bases ≡ o
          → (on_segment_proof primitives segment proof written attest takes node).seeds ≡ node.seeds
      split none e = ap (λ (v : SealView). v.seeds) (seal_view-on_segment_proof-none written e)
      split (some base) e =
          ap (λ (v : SealView). v.seeds) (seal_view-on_segment_proof-some written base e)

module _ (primitives : Primitives) (hash_to_group : Bytes → Bytes → ℕ) (cfg : ClockConfig)
    (oracle : Oracle) (seeds : List SeedInput) (n : ℕ) (node : Node) where
  abbrev pub KeptNow : Node → Type 0
  KeptNow x = Kept primitives hash_to_group cfg oracle seeds n (seal_view x)

  pub Kept-on_segment_proof :
      (r : SegmentRound) (segment y x_end : ℕ) (written : Bool) (attest : ℕ → ℕ → Hash32)
      (takes : Bool)
      → get_elem? (clock_rounds primitives hash_to_group cfg seeds) segment ≡ some r
      → end_of primitives hash_to_group cfg r ≡ (segment, (y, x_end))
      → segment < n
      → KeptNow node
      → KeptNow (
          on_segment_proof primitives segment
            (segment_proof oracle cfg.group cfg.q cfg.segment_ticks y x_end)
            written
            attest
            takes
            node)
  unfolding end_of keep_segment insert_segment seal_of round_proof
  Kept-on_segment_proof r segment y x_end written attest takes at ends low k =
      split (get segment node.seal_bases) refl
    where
      proof : SequentialProof
      proof = segment_proof oracle cfg.group cfg.q cfg.segment_ticks y x_end

      next : Node
      next = on_segment_proof primitives segment proof written attest takes node

      kept_by :
          (w : Bool) (base : ℕ × ℕ)
          → Sealed primitives hash_to_group cfg oracle seeds r
              (the_seal primitives node segment proof attest takes base)
          → Kept primitives hash_to_group cfg oracle seeds n (record {
            segments =
                (keep_segment
                  (the_seal primitives node segment proof attest takes base)
                  w
                  node.store).segments;
            bases = drop_key segment node.seal_bases;
            entropies = node.entropies;
            seeds = node.seeds;
          })
      kept_by true base sealed =
          Kept-seal primitives hash_to_group cfg oracle seeds n
            (record (seal_view node) { bases = drop_key segment node.seal_bases }) r segment
            (the_seal primitives node segment proof attest takes base) at sealed
            (Kept-drop primitives hash_to_group cfg oracle seeds n (seal_view node) segment k)
      kept_by false base sealed =
          Kept-drop primitives hash_to_group cfg oracle seeds n (seal_view node) segment k

      split : (o : Option (ℕ × ℕ)) → get segment node.seal_bases ≡ o → KeptNow next
      split none e =
          subst (Kept primitives hash_to_group cfg oracle seeds n)
            (sym (
              seal_view-on_segment_proof-none primitives node segment proof attest takes written e))
            k
      split (some (y', x')) e =
          let (r', at', ey, ex) = k.bases segment y' x' e in
          let same : r' ≡ r = cc (at, at') in
          let entropy = k.entropies segment r at (omega (arith, low)) in
          let own_y : y ≡ y_of primitives hash_to_group cfg r =
            sym (ap (λ (p : ℕ × (ℕ × ℕ)). p.1.0) ends) in
          let own_x : x_end ≡ x_end_of primitives hash_to_group cfg r =
            sym (ap (λ (p : ℕ × (ℕ × ℕ)). p.1.1) ends) in
          let sealed : Sealed primitives hash_to_group cfg oracle seeds r
              (the_seal primitives node segment proof attest takes (y', x')) =
            record {
              y = sym ey ∙ ap (y_of primitives hash_to_group cfg) same;
              x_end = sym ex ∙ ap (x_end_of primitives hash_to_group cfg) same;
              entropy = ap entropy_or_zero entropy;
              proof =
                  ap (λ z. segment_proof oracle cfg.group cfg.q cfg.segment_ticks z x_end) own_y
                  ∙ ap
                      (segment_proof oracle cfg.group cfg.q cfg.segment_ticks
                        (y_of primitives hash_to_group cfg r))
                      own_x;
            } in
          subst (Kept primitives hash_to_group cfg oracle seeds n)
            (sym (
              seal_view-on_segment_proof-some primitives node segment proof attest takes written
                (y', x') e))
            (kept_by written (y', x') sealed)

  -- the node after an event, unless it has finished
  pub Kept-ended :
      (next : Node)
      → KeptNow node
      → KeptNow next
      → KeptNow (if node.status.finished then node else final_cutoff next)
  Kept-ended next k k' = split node.status.finished
    where
      split : (b : Bool) → KeptNow (if b then node else final_cutoff next)
      split true = k
      split false =
          subst (Kept primitives hash_to_group cfg oracle seeds n)
            (sym (seal_view-final_cutoff next)) k'
