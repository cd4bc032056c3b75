-- ===== src/Sequencer/Node/Keeping.antt =====
-- What a node (crates/sequencer/src/node.rs) keeps of the segments, over the events that it handles.
use lighter_integration.Base.{
  ℕ, suc, ◌+◌, ◌^◌, ◌<◌, ◌≡◌, refl, sym, ap, ◌∙◌, Bool, true, false, Bytes, Hash32, List, [], ◌∷◌,
  ◌++◌, Option, some, length, get_elem?, get_elem?-length, get_elem?-lt, length-append,
  if◌then◌else◌, arith,
}
use mathlib.Core.Path.{subst}
use mathlib.Core.List.{append_assoc, append-nil}
use lighter_integration.Sequencer.Identity.{Primitives}
use lighter_integration.Sequencer.Envelope.{Intent}
use lighter_integration.Sequencer.Records.{SequentialProof}
use lighter_integration.Vdf.Hashing.{Crypto}
use lighter_integration.Vdf.Posq.{Oracle}
use lighter_integration.Sequencer.Clock.{segment_proof}
use lighter_integration.Sequencer.Clock.Loop.{
  ClockConfig, ClockEvent, ticked, ended, SegmentRound, clock_rounds, run_clock,
}
use lighter_integration.Sequencer.Node.{Node, SeedInput}
use lighter_integration.Sequencer.Node.Coordinator.{
  Event, submission, wave, on_segment_end, on_segment_proof, final_cutoff, coordinate, handle,
}
use lighter_integration.Sequencer.Node.SealView.{
  SealView, seal_view, keeps_seals, seal_view-final_cutoff, seal_view-coordinate,
}
use lighter_integration.Sequencer.Node.Clocked.{Handled, ends_of}
use lighter_integration.Sequencer.Node.Sealed.{ends_of-append, end_of}
use lighter_integration.Sequencer.Node.Kept.{Kept, Kept-end, round-segment}
use lighter_integration.Sequencer.Node.Proving.{
  segment-end_of, round-ends_of, seeds-on_segment_proof, Kept-on_segment_proof, Kept-ended,
}

module _ (primitives : Primitives) (crypto : Crypto) (parse_intent : Bytes → Option Intent)
    (oracle : Oracle) (hash_to_group : Bytes → Bytes → ℕ) (cfg : ClockConfig)
    (seeds : List SeedInput) (few : length seeds + 1 < 2 ^ 64) where
  seeds-proof :
      (segment : ℕ) (proof : SequentialProof) (written : Bool) (attest : ℕ → ℕ → Hash32)
      (takes : Bool) (node : Node)
      → (coordinate primitives crypto parse_intent
          (Event.segment_proof segment proof written attest takes)
          node).seeds
        ≡ node.seeds
  unfolding coordinate handle
  seeds-proof segment proof written attest takes node = split node.status.finished
    where
      next : Node
      next = on_segment_proof primitives segment proof written attest takes node

      split : (b : Bool) → (if b then node else final_cutoff next).seeds ≡ node.seeds
      split true = refl
      split false =
          ap (λ (v : SealView). v.seeds) (seal_view-final_cutoff next)
          ∙ seeds-on_segment_proof primitives node segment proof attest takes written

  seal_view-end :
      (segment y x_end : ℕ) (entropy : Hash32) (node : Node)
      → node.status.finished ≡ false
      → seal_view (
          coordinate primitives crypto parse_intent
            (Event.segment_end segment y x_end entropy)
            node)
        ≡ seal_view (on_segment_end segment y x_end entropy node)
  unfolding coordinate handle
  seal_view-end segment y x_end entropy node running =
      let next = on_segment_end segment y x_end entropy node in
      ap (λ (b : Bool). seal_view (if b then node else final_cutoff next)) running
      ∙ seal_view-final_cutoff next

  proof_step :
      (r : SegmentRound) (segment y x_end : ℕ) (written : Bool) (attest : ℕ → ℕ → Hash32)
      (takes : Bool) (n : ℕ) (node : Node)
      → get_elem? (clock_rounds primitives hash_to_group cfg seeds) segment ≡ some r
      → end_of primitives hash_to_group cfg r ≡ (segment, (y, x_end))
      → segment < n
      → Kept primitives hash_to_group cfg oracle seeds n (seal_view node)
      → Kept primitives hash_to_group cfg oracle seeds n (
          seal_view (
            coordinate primitives crypto parse_intent
              (Event.segment_proof segment
                (segment_proof oracle cfg.group cfg.q cfg.segment_ticks y x_end)
                written
                attest
                takes)
              node))
  unfolding coordinate handle
  proof_step r segment y x_end written attest takes n node at ends low k =
      Kept-ended primitives hash_to_group cfg oracle seeds n node
        (on_segment_proof primitives segment
          (segment_proof oracle cfg.group cfg.q cfg.segment_ticks y x_end) written attest takes
          node)
        k
        (Kept-on_segment_proof primitives hash_to_group cfg oracle seeds n node r segment y x_end
          written attest takes at ends low k)

  end_step :
      (r : SegmentRound) (segment y x_end : ℕ) (entropy : Hash32) (more : List SeedInput) (n : ℕ)
      (node : Node)
      → node.status.finished ≡ false
      → node.seeds ++ record { c_end = node.c_prev; entropy = entropy } ∷ more ≡ seeds
      → get_elem? (clock_rounds primitives hash_to_group cfg seeds) n ≡ some r
      → end_of primitives hash_to_group cfg r ≡ (segment, (y, x_end))
      → Kept primitives hash_to_group cfg oracle seeds n (seal_view node)
      → Kept primitives hash_to_group cfg oracle seeds (suc n) (
          seal_view (
            coordinate primitives crypto parse_intent
              (Event.segment_end segment y x_end entropy)
              node))
  unfolding on_segment_end
  end_step r segment y x_end entropy more n node running es at ends k =
      subst (Kept primitives hash_to_group cfg oracle seeds (suc n))
        (sym (seal_view-end segment y x_end entropy node running))
        (Kept-end primitives hash_to_group cfg oracle seeds n (seal_view node) more r segment y
          x_end node.c_prev entropy few es at ends k)

  seeds-end :
      (segment y x_end : ℕ) (entropy : Hash32) (more : List SeedInput) (node : Node)
      → node.status.finished ≡ false
      → (coordinate primitives crypto parse_intent
            (Event.segment_end segment y x_end entropy)
            node).seeds
          ++ more
        ≡ seeds
      → node.seeds ++ record { c_end = node.c_prev; entropy = entropy } ∷ more ≡ seeds
  unfolding on_segment_end
  seeds-end segment y x_end entropy more node running es =
      let new : SeedInput = record { c_end = node.c_prev; entropy = entropy } in
      sym (append_assoc node.seeds (new ∷ []) more)
      ∙ ap (λ (v : SealView). v.seeds ++ more)
          (sym (seal_view-end segment y x_end entropy node running))
      ∙ es

  -- An event that leaves the seals alone.
  aside :
      (ev : Event) (node : Node) (n : ℕ)
      → keeps_seals ev ≡ true
      → Kept primitives hash_to_group cfg oracle seeds n (seal_view node)
      → Kept primitives hash_to_group cfg oracle seeds n
          (seal_view (coordinate primitives crypto parse_intent ev node))
  aside ev node n keeps k =
      subst (Kept primitives hash_to_group cfg oracle seeds n)
        (sym (seal_view-coordinate primitives crypto parse_intent ev node keeps)) k

  seeds-aside :
      (ev : Event) (node : Node) (more : List SeedInput)
      → keeps_seals ev ≡ true
      → (coordinate primitives crypto parse_intent ev node).seeds ++ more ≡ seeds
      → node.seeds ++ more ≡ seeds
  seeds-aside ev node more keeps es =
      ap (λ (v : SealView). v.seeds ++ more)
        (sym (seal_view-coordinate primitives crypto parse_intent ev node keeps))
      ∙ es

  -- What the node keeps is that of the rounds of its clock, whatever it has handled.
  pub Handled-Kept :
      {start node : Node} {sent : List ClockEvent} (more : List SeedInput) (rest : List ClockEvent)
      → Kept primitives hash_to_group cfg oracle seeds 0 (seal_view start)
      → node.seeds ++ more ≡ seeds
      → sent ++ rest ≡ run_clock primitives hash_to_group cfg seeds
      → Handled primitives crypto parse_intent oracle cfg start sent node
      → Kept primitives hash_to_group cfg oracle seeds (length (ends_of sent)) (seal_view node)
  unfolding ends_of
  Handled-Kept more rest k es ec Handled.begun = k
  Handled-Kept more rest k es ec (Handled.ticks {sent} {node} t elapsed h running in_time) =
      let ev = Event.tick_end t.segment t.tick t.x true elapsed in
      let before =
        Handled-Kept more (ticked t ∷ rest) k (seeds-aside ev node more refl es)
          (sym (append_assoc sent (ticked t ∷ []) rest) ∙ ec) h in
      let same : ends_of sent ≡ ends_of (sent ++ ticked t ∷ []) =
        sym (append-nil (ends_of sent)) ∙ sym (ends_of-append sent (ticked t ∷ [])) in
      subst
        (λ l.
          Kept primitives hash_to_group cfg oracle seeds (length l)
            (seal_view (coordinate primitives crypto parse_intent ev node)))
        same (aside ev node (length (ends_of sent)) refl before)
  Handled-Kept more rest k es ec (Handled.ends {sent} {node} segment y x_end entropy h running) =
      let events = ended segment y x_end ∷ [] in
      let es' = seeds-end segment y x_end entropy more node running es in
      let before =
        Handled-Kept (record { c_end = node.c_prev; entropy = entropy } ∷ more)
          (ended segment y x_end ∷ rest) k es' (sym (append_assoc sent events rest) ∙ ec) h in
      let all : ends_of (sent ++ events) ≡ ends_of sent ++ (segment, (y, x_end)) ∷ [] =
        ends_of-append sent events in
      let found =
        ap (λ l. get_elem? l (length (ends_of sent))) all
        ∙ get_elem?-length (ends_of sent) [] (segment, (y, x_end)) in
      let (r, at, ends) =
        round-ends_of primitives hash_to_group cfg seeds (sent ++ events) rest
          (length (ends_of sent)) segment y x_end ec found in
      let count : suc (length (ends_of sent)) ≡ length (ends_of (sent ++ events)) =
        omega (arith, ap length all, length-append (ends_of sent) ((segment, (y, x_end)) ∷ [])) in
      subst
        (λ m. Kept primitives hash_to_group cfg oracle seeds m (
          seal_view (
            coordinate primitives crypto parse_intent (Event.segment_end segment y x_end entropy)
              node)))
        count
        (end_step r segment y x_end entropy more (length (ends_of sent)) node running es' at ends
          before)
  Handled-Kept more rest k es ec
        (Handled.proves {sent} {node} i segment y x_end written attest host_takes h of) =
      let proof = segment_proof oracle cfg.group cfg.q cfg.segment_ticks y x_end in
      let es' =
        ap (λ l. l ++ more) (sym (seeds-proof segment proof written attest host_takes node)) ∙ es in
      let before = Handled-Kept more rest k es' ec h in
      let (r, at, ends) =
        round-ends_of primitives hash_to_group cfg seeds sent rest i segment y x_end ec of in
      let number : segment ≡ i =
        sym (segment-end_of primitives hash_to_group cfg r segment y x_end ends)
        ∙ round-segment primitives hash_to_group cfg oracle seeds i r few at in
      let low : segment < length (ends_of sent) =
        omega (arith, number, get_elem?-lt (ends_of sent) i (segment, (y, x_end)) of) in
      proof_step r segment y x_end written attest host_takes (length (ends_of sent)) node
        (ap (λ j. get_elem? (clock_rounds primitives hash_to_group cfg seeds) j) number ∙ at) ends
        low before
  Handled-Kept more rest k es ec (Handled.takes {sent} {node} bytes stored h) =
      let ev = submission bytes stored in
      aside ev node (length (ends_of sent)) refl
        (Handled-Kept more rest k (seeds-aside ev node more refl es) ec h)
  Handled-Kept more rest k es ec (Handled.solves {sent} {node} key items solution h) =
      let ev = wave key items solution in
      aside ev node (length (ends_of sent)) refl
        (Handled-Kept more rest k (seeds-aside ev node more refl es) ec h)
  Handled-Kept more rest k es ec (Handled.closes {sent} {node} h) =
      aside Event.clock_closed node (length (ends_of sent)) refl
        (Handled-Kept more rest k (seeds-aside Event.clock_closed node more refl es) ec h)
