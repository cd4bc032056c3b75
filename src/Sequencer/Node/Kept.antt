-- ===== src/Sequencer/Node/Kept.antt =====
-- What the coordinator (crates/sequencer/src/node.rs) keeps of the segments of its clock
-- (crates/sequencer/src/clock.rs) until the proofs arrive, and the seals that it makes of it.
use lighter_integration.Base.{
  ℕ, zero, suc, ◌+◌, ◌^◌, ◌<◌, ◌≤◌, ◌≡◌, ◌≢◌, refl, sym, ap, ◌∙◌, Bytes, Hash32, List, [], ◌∷◌,
  ◌++◌, some, length, get_elem?, get_elem?-length, length-append, wrap, arith,
}
use mathlib.Core.Path.{subst}
use native.Mathlib.Decide.{ℕ_discrete}
use lighter_integration.Sequencer.Identity.{Primitives}
use lighter_integration.Sequencer.Records.{SegmentSeal}
use lighter_integration.Sequencer.Store.{insert}
use lighter_integration.Vdf.Posq.{Oracle}
use lighter_integration.Sequencer.Clock.Loop.{
  ClockConfig, SegmentRound, first_round, y_of, x_end_of, next_round, round_proof, clock_rounds,
}
use lighter_integration.Sequencer.Clock.Rounds.{
  clock_rounds-Consecutive, Consecutive-get_elem?, clock_rounds-Follows, clock_rounds-first,
}
use lighter_integration.Sequencer.Node.{SeedInput}
use lighter_integration.Sequencer.Node.Anchors.{get}
use lighter_integration.Sequencer.Node.Log.{get-insert_self, get-insert_other}
use lighter_integration.Sequencer.Node.Coordinator.{drop_key}
use lighter_integration.Sequencer.Node.SealView.{SealView}
use lighter_integration.Sequencer.Node.Sealed.{get-drop_key, end_of}

module _ (primitives : Primitives) (hash_to_group : Bytes → Bytes → ℕ) (cfg : ClockConfig)
    (oracle : Oracle) (seeds : List SeedInput) where
  abbrev rounds : List SegmentRound
  rounds = clock_rounds primitives hash_to_group cfg seeds

  -- The seal has the seed, the end, the entropy and the proof of the round.
  pub record Sealed (r : SegmentRound) (seal : SegmentSeal) : Type 0 where
    pub y : seal.y ≡ y_of primitives hash_to_group cfg r
    pub x_end : seal.x_end ≡ x_end_of primitives hash_to_group cfg r
    pub entropy : seal.entropy ≡ r.entropy
    pub proof : seal.proof ≡ round_proof primitives hash_to_group cfg oracle r

  -- After the ends of `n` segments: what is kept is that of the rounds of the clock.
  pub record Kept (n : ℕ) (v : SealView) : Type 0 where
    pub counted : length v.seeds ≡ n
    pub bases :
        (s y x_end : ℕ)
        → get s v.bases ≡ some (y, x_end)
        → (r : SegmentRound) × (get_elem? rounds s ≡ some r)
          × (y_of primitives hash_to_group cfg r ≡ y)
          × (x_end_of primitives hash_to_group cfg r ≡ x_end)
    pub entropies :
        (s : ℕ) (r : SegmentRound)
        → get_elem? rounds s ≡ some r
        → s ≤ n
        → get s v.entropies ≡ some r.entropy
    pub segments :
        (s : ℕ) (seal : SegmentSeal)
        → get s v.segments ≡ some seal
        → (r : SegmentRound) × (get_elem? rounds s ≡ some r) × Sealed r seal

  pub Kept-start :
      Kept 0 (record {
        segments = [];
        bases = [];
        entropies = (0, cfg.genesis_entropy) ∷ [];
        seeds = [];
      })
  unfolding get first_round
  Kept-start = record {
    counted = refl;
    bases = λ s y x_end h. absurd (cc h);
    entropies = λ s r h low. first s r h low;
    segments = λ s seal h. absurd (cc h);
  }
    where
      first :
          (s : ℕ) (r : SegmentRound)
          → get_elem? rounds s ≡ some r
          → s ≤ 0
          → get s ((0, cfg.genesis_entropy) ∷ []) ≡ some r.entropy
      first zero r h low =
          ap (λ (x : SegmentRound). some x.entropy)
            (sym (clock_rounds-first primitives hash_to_group cfg seeds r h))
      first (suc s) r h low = absurd (omega (arith, low))

  -- The number of the segment is the index of its round.
  pub round-segment :
      (i : ℕ) (r : SegmentRound)
      → length seeds + 1 < 2 ^ 64
      → get_elem? rounds i ≡ some r
      → r.segment ≡ i
  round-segment i r few h =
      let at =
        Consecutive-get_elem? rounds 0 i r
          (clock_rounds-Consecutive primitives hash_to_group cfg seeds few) h in
      omega (arith, at)

  module _ (n : ℕ) (v : SealView) where
    -- The end of the next segment, with the seed that it is answered by.
    pub Kept-end :
        (more : List SeedInput) (r : SegmentRound) (segment y x_end : ℕ) (c_end entropy : Hash32)
        → length seeds + 1 < 2 ^ 64
        → v.seeds ++ record { c_end = c_end; entropy = entropy } ∷ more ≡ seeds
        → get_elem? rounds n ≡ some r
        → end_of primitives hash_to_group cfg r ≡ (segment, (y, x_end))
        → Kept n v
        → Kept (suc n) (record {
          segments = v.segments;
          bases = insert segment (y, x_end) v.bases;
          entropies = insert (wrap (segment + 1)) entropy v.entropies;
          seeds = v.seeds ++ record { c_end = c_end; entropy = entropy } ∷ [];
        })
    unfolding end_of next_round
    Kept-end more r segment y x_end c_end entropy few split at ends k = record {
      counted = length-append v.seeds _ ∙ omega (arith, k.counted);
      bases = based;
      entropies = fresh;
      segments = k.segments;
    }
      where
        new : SeedInput
        new = record { c_end = c_end; entropy = entropy }

        number : segment ≡ n
        number = sym (ap (λ (e : ℕ × (ℕ × ℕ)). e.0) ends) ∙ round-segment n r few at

        total : n + 1 + length more ≡ length seeds
        total = omega (arith, length-append v.seeds (new ∷ more), ap length split, k.counted)

        based :
            (s y' x' : ℕ)
            → get s (insert segment (y, x_end) v.bases) ≡ some (y', x')
            → (r : SegmentRound) × (get_elem? rounds s ≡ some r)
              × (y_of primitives hash_to_group cfg r ≡ y')
              × (x_end_of primitives hash_to_group cfg r ≡ x')
        based s y' x' h = elim (ℕ_discrete segment s) [
          | yes e ↦
              let found : some (y, x_end) ≡ some (y', x') =
                sym (get-insert_self segment (y, x_end) v.bases)
                ∙ ap (λ j. get j (insert segment (y, x_end) v.bases)) e
                ∙ h in
              let same_y : y ≡ y' = cc found in
              let same_x : x_end ≡ x' = cc found in
              (
                r,
                ap (λ j. get_elem? rounds j) (sym e ∙ number) ∙ at,
                ap (λ (p : ℕ × (ℕ × ℕ)). p.1.0) ends ∙ same_y,
                ap (λ (p : ℕ × (ℕ × ℕ)). p.1.1) ends ∙ same_x,
              )
          | no d ↦ k.bases s y' x' (sym (get-insert_other segment s (y, x_end) v.bases d) ∙ h)
        ]

        next_key : wrap (segment + 1) ≡ suc n
        next_key = omega (arith, number, total, few)

        -- the entropy of the round that follows
        next_entropy :
            (r' : SegmentRound) → get_elem? rounds (suc n) ≡ some r' → r'.entropy ≡ entropy
        next_entropy r' h =
            let (before, seed, _, found, follows) =
              clock_rounds-Follows primitives hash_to_group cfg seeds n r' h in
            let there : get_elem? seeds n ≡ some new =
              ap (λ l. get_elem? l n) (sym split)
              ∙ ap (get_elem? (v.seeds ++ new ∷ more)) (sym k.counted)
              ∙ get_elem?-length v.seeds more new in
            let same : seed ≡ new = cc (found, there) in
            ap (λ (x : SegmentRound). x.entropy) follows ∙ ap (λ (x : SeedInput). x.entropy) same

        fresh :
            (s : ℕ) (r' : SegmentRound)
            → get_elem? rounds s ≡ some r'
            → s ≤ suc n
            → get s (insert (wrap (segment + 1)) entropy v.entropies) ≡ some r'.entropy
        fresh s r' h low = elim (ℕ_discrete (wrap (segment + 1)) s) [
          | yes e ↦
              let at_next : get_elem? rounds (suc n) ≡ some r' =
                ap (λ j. get_elem? rounds j) (sym next_key ∙ e) ∙ h in
              ap (λ j. get j (insert (wrap (segment + 1)) entropy v.entropies)) (sym e)
              ∙ get-insert_self (wrap (segment + 1)) entropy v.entropies
              ∙ ap (λ x. some x) (sym (next_entropy r' at_next))
          | no d ↦
              let other : s ≢ suc n = λ e. d (next_key ∙ sym e) in
              get-insert_other (wrap (segment + 1)) s entropy v.entropies d
              ∙ k.entropies s r' h (omega (arith, low, other))
        ]

    -- What is kept of a segment is dropped.
    pub Kept-drop :
        (segment : ℕ) → Kept n v → Kept n (record v { bases = drop_key segment v.bases })
    Kept-drop segment k = record {
      counted = k.counted;
      bases = λ s y x_end h. k.bases s y x_end (get-drop_key segment s v.bases (y, x_end) h);
      entropies = k.entropies;
      segments = k.segments;
    }

    -- The seal of a round is kept under its number.
    pub Kept-seal :
        (r : SegmentRound) (segment : ℕ) (seal : SegmentSeal)
        → get_elem? rounds segment ≡ some r
        → Sealed r seal
        → Kept n v
        → Kept n (record v { segments = insert segment seal v.segments })
    Kept-seal r segment seal at sealed k = record {
      counted = k.counted;
      bases = k.bases;
      entropies = k.entropies;
      segments = kept;
    }
      where
        kept :
            (s : ℕ) (seal' : SegmentSeal)
            → get s (insert segment seal v.segments) ≡ some seal'
            → (r : SegmentRound) × (get_elem? rounds s ≡ some r) × Sealed r seal'
        kept s seal' h = elim (ℕ_discrete segment s) [
          | yes e ↦
              let found : some seal ≡ some seal' =
                sym (get-insert_self segment seal v.segments)
                ∙ ap (λ j. get j (insert segment seal v.segments)) e
                ∙ h in
              let same : seal ≡ seal' = cc found in
              (r, ap (λ j. get_elem? rounds j) (sym e) ∙ at, subst (Sealed r) same sealed)
          | no d ↦ k.segments s seal' (sym (get-insert_other segment s seal v.segments d) ∙ h)
        ]
