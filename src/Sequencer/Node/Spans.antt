-- ===== src/Sequencer/Node/Spans.antt =====
-- The span of an anchor (crates/sequencer/src/node.rs): the seals of its segments, and the replay of its
-- ticks (crates/sequencer/src/transcript.rs).
use lighter_integration.Base.{
  ℕ, zero, suc, ◌+◌, ◌<◌, ◌≤◌, ◌≡◌, refl, sym, ap, ◌∙◌, Hash32, List, [], ◌∷◌, Option, none, some,
  get_elem?, Result, ok, err, ◌>>=◌, length, arith,
}
use lighter_integration.Sequencer.Identity.{Primitives, Address}
use lighter_integration.Sequencer.Records.{SegmentSeal}
use lighter_integration.Sequencer.Store.{SealedTick}
use lighter_integration.Sequencer.Transcript.{
  TranscriptProof, TranscriptViolation, optimistic, predicate_commitment, verify_span, replay_prove,
}
use lighter_integration.Sequencer.Transcript.Valid.{Span, seen_after}
use lighter_integration.Sequencer.Node.Rounds.{length-seals_from}
use lighter_integration.Sequencer.Node.Anchors.{get, seals_from}

-- Where as many seals are found as there are segments, each one is that of its segment.
pub seals_from-full :
    (segments : List (ℕ × SegmentSeal)) (count s i : ℕ)
    → length (seals_from segments count s) ≡ count
    → i < count
    → (seal : SegmentSeal) × (get_elem? (seals_from segments count s) i ≡ some seal)
      × (get (s + i) segments ≡ some seal)
unfolding seals_from
seals_from-full segments zero s i h low = absurd (omega (arith, low))
seals_from-full segments (suc count) s i h low =
    from (get s segments) refl i h low (length-seals_from segments count (s + 1))
      (λ j e l. seals_from-full segments count (s + 1) j e l)
  where
    rest : List SegmentSeal
    rest = seals_from segments count (s + 1)

    found : Option SegmentSeal → List SegmentSeal
    found o = elim o [ none ↦ rest | some seal ↦ seal ∷ rest ]

    from :
        (o : Option SegmentSeal)
        → get s segments ≡ o
        → (i : ℕ) → length (found o) ≡ suc count
        → i < suc count
        → length rest ≤ count
        → ((j : ℕ)
            → length rest ≡ count
            → j < count
            → (seal : SegmentSeal) × (get_elem? rest j ≡ some seal)
              × (get (s + 1 + j) segments ≡ some seal))
        → (seal : SegmentSeal) × (get_elem? (found o) i ≡ some seal)
          × (get (s + i) segments ≡ some seal)
    from none e i h low le later = absurd (omega (arith, h, le))
    from (some seal) e zero h low le later =
        let at : s + 0 ≡ s = omega arith in (seal, refl, rw at e)
    from (some seal) e (suc i) h low le later =
        let (x, there, kept) = later i (omega (arith, h)) (omega (arith, low)) in
        let at : s + suc i ≡ s + 1 + i = omega arith in (x, there, rw at kept)

-- The commitment after a span is that of its last tick.
pub Span-last :
    (primitives : Primitives) (epoch : ℕ) (sequencer : Address) (ticks : ℕ → Option SealedTick)
    (count t : ℕ) (c c' : Hash32) (seen : List Hash32) (s : SealedTick)
    → Span primitives epoch sequencer ticks (suc count) t c c' seen
    → ticks (t + count) ≡ some s
    → s.record_of.c_t ≡ c'
Span-last primitives epoch sequencer ticks zero t c c' seen s (x, found, valid, e) h =
    let at : t + 0 ≡ t = omega arith in
    let here : ticks t ≡ some s = ap ticks (sym at) ∙ h in
    let same : s ≡ x = cc (here, found) in ap (λ (y : SealedTick). y.record_of.c_t) same ∙ e
Span-last primitives epoch sequencer ticks (suc count) t c c' seen s (x, found, valid, rest) h =
    let at : t + suc count ≡ t + 1 + count = omega arith in
    Span-last primitives epoch sequencer ticks count (t + 1) x.record_of.c_t c'
      (seen_after seen x.entries) s rest (ap ticks (sym at) ∙ h)

-- What a proof of the replay prover commits to.
pub replay_prove-eq-ok :
    (primitives : Primitives) (epoch : ℕ) (sequencer : Address) (c_before : Hash32) (from to : ℕ)
    (ticks : ℕ → Option SealedTick) (c : Hash32) (proof : TranscriptProof)
    → replay_prove primitives epoch sequencer c_before from to ticks ≡ ok (c, proof)
    → (verify_span primitives epoch sequencer c_before from to ticks [] ≡ ok c)
      × (proof ≡ optimistic (predicate_commitment primitives epoch from to c_before c))
unfolding replay_prove
replay_prove-eq-ok primitives epoch sequencer c_before from to ticks c proof h =
    from_span (verify_span primitives epoch sequencer c_before from to ticks []) refl h
  where
    commitment : Hash32 → TranscriptProof
    commitment d = optimistic (predicate_commitment primitives epoch from to c_before d)

    pack : Hash32 → Result TranscriptViolation (Hash32 × TranscriptProof)
    pack d = ok (d, commitment d)

    from_span :
        (r : Result TranscriptViolation Hash32)
        → verify_span primitives epoch sequencer c_before from to ticks [] ≡ r
        → (r >>= pack) ≡ ok (c, proof)
        → (verify_span primitives epoch sequencer c_before from to ticks [] ≡ ok c)
          × (proof ≡ commitment c)
    from_span (err v) e h = absurd (cc h)
    from_span (ok d) e h =
        let same : d ≡ c = cc h in
        let made : commitment d ≡ proof = cc h in
        (e ∙ ap (λ x. ok x) same, sym made ∙ ap commitment same)
