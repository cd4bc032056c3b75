-- ===== src/Sequencer/Clock/Rounds.antt =====
-- The rounds of `run_clock` (crates/sequencer/src/clock.rs), and what each takes over from the one before
-- it and its seed.
use lighter_integration.Base.{
  ℕ, zero, suc, ◌+◌, ◌^◌, ◌<◌, ◌≤◌, ◌≡◌, refl, ap, Bool, true, false, Bytes, List, [], ◌∷◌, some,
  length, get_elem?, if◌then◌else◌, arith,
}
use lighter_integration.Sequencer.Identity.{Primitives}
use lighter_integration.Sequencer.Node.{SeedInput}
use lighter_integration.Sequencer.Clock.Loop.{
  ClockConfig, SegmentRound, is_last, first_round, next_round, rounds_from, clock_rounds,
}

-- The segments of the rounds are consecutive, from `s` on.
abbrev pub Consecutive : ℕ → List SegmentRound → Type 0
Consecutive s [] = Unit
Consecutive s (r ∷ rounds) = (r.segment ≡ s) × Consecutive (s + 1) rounds

pub Consecutive-get_elem? :
    (rounds : List SegmentRound) (s i : ℕ) (r : SegmentRound)
    → Consecutive s rounds
    → get_elem? rounds i ≡ some r
    → r.segment ≡ s + i
Consecutive-get_elem? [] s i r c h = absurd (cc h)
Consecutive-get_elem? (x ∷ rounds) s zero r (at, c) h =
    let same : x.segment ≡ r.segment =
      ap (λ (o : SegmentRound). o.segment) (let e : x ≡ r = cc h in e) in
    omega (arith, same, at)
Consecutive-get_elem? (x ∷ rounds) s (suc i) r (at, c) h =
    omega (arith, Consecutive-get_elem? rounds (s + 1) i r c h)

module _ (primitives : Primitives) (hash_to_group : Bytes → Bytes → ℕ) (cfg : ClockConfig) where
  rounds_from-Consecutive :
      (seeds : List SeedInput) (r : SegmentRound) (s : ℕ)
      → r.segment ≡ s
      → s + length seeds + 1 < 2 ^ 64
      → Consecutive s (rounds_from primitives hash_to_group cfg seeds r)
  unfolding rounds_from next_round
  rounds_from-Consecutive [] r s at few = split (is_last cfg.max_segments r.segment)
    where
      split : (b : Bool) → Consecutive s (if b then [] else r ∷ [])
      split true = tt
      split false = (at, tt)
  rounds_from-Consecutive (seed ∷ seeds) r s at few = split (is_last cfg.max_segments r.segment) (
      rounds_from-Consecutive seeds (next_round primitives hash_to_group cfg r seed) (s + 1)
        (omega (arith, at, few)) (omega (arith, few)))
    where
      rest : List SegmentRound
      rest =
          rounds_from primitives hash_to_group cfg seeds
            (next_round primitives hash_to_group cfg r seed)

      split : (b : Bool) → Consecutive (s + 1) rest → Consecutive s (if b then [] else r ∷ rest)
      split true c = tt
      split false c = (at, c)

  length-rounds_from :
      (seeds : List SeedInput) (r : SegmentRound)
      → length (rounds_from primitives hash_to_group cfg seeds r) ≤ length seeds + 1
  unfolding rounds_from
  length-rounds_from [] r = split (is_last cfg.max_segments r.segment)
    where
      split : (b : Bool) → length (if b then [] else r ∷ []) ≤ 0 + 1
      split true = omega arith
      split false = omega arith
  length-rounds_from (seed ∷ seeds) r =
      split (is_last cfg.max_segments r.segment)
        (length-rounds_from seeds (next_round primitives hash_to_group cfg r seed))
    where
      rest : List SegmentRound
      rest =
          rounds_from primitives hash_to_group cfg seeds
            (next_round primitives hash_to_group cfg r seed)

      split :
          (b : Bool)
          → length rest ≤ length seeds + 1
          → length (if b then [] else r ∷ rest) ≤ suc (length seeds) + 1
      split true h = omega arith
      split false h = omega (arith, h)

  pub clock_rounds-Consecutive :
      (seeds : List SeedInput)
      → length seeds + 1 < 2 ^ 64
      → Consecutive 0 (clock_rounds primitives hash_to_group cfg seeds)
  unfolding clock_rounds first_round
  clock_rounds-Consecutive seeds few =
      rounds_from-Consecutive seeds (first_round primitives hash_to_group cfg) 0 refl (omega arith)

  pub length-clock_rounds :
      (seeds : List SeedInput)
      → length (clock_rounds primitives hash_to_group cfg seeds) ≤ length seeds + 1
  unfolding clock_rounds
  length-clock_rounds seeds = length-rounds_from seeds (first_round primitives hash_to_group cfg)

  rounds_from-head :
      (seeds : List SeedInput) (first r : SegmentRound)
      → get_elem? (rounds_from primitives hash_to_group cfg seeds first) 0 ≡ some r
      → r ≡ first
  unfolding rounds_from
  rounds_from-head [] first r h = split (is_last cfg.max_segments first.segment) h
    where
      split : (b : Bool) → get_elem? (if b then [] else first ∷ []) 0 ≡ some r → r ≡ first
      split true h = absurd (cc h)
      split false h = cc h
  rounds_from-head (seed ∷ seeds) first r h = split (is_last cfg.max_segments first.segment) h
    where
      rest : List SegmentRound
      rest =
          rounds_from primitives hash_to_group cfg seeds
            (next_round primitives hash_to_group cfg first seed)

      split : (b : Bool) → get_elem? (if b then [] else first ∷ rest) 0 ≡ some r → r ≡ first
      split true h = absurd (cc h)
      split false h = cc h

  -- A round follows from the one before it and the seed between them.
  abbrev pub Follows : List SeedInput → List SegmentRound → ℕ → SegmentRound → Type 0
  Follows seeds rounds i r =
      (before : SegmentRound) × (seed : SeedInput) × (get_elem? rounds i ≡ some before)
      × (get_elem? seeds i ≡ some seed)
      × (r ≡ next_round primitives hash_to_group cfg before seed)

  rounds_from-Follows :
      (seeds : List SeedInput) (first : SegmentRound) (i : ℕ) (r : SegmentRound)
      → get_elem? (rounds_from primitives hash_to_group cfg seeds first) (suc i) ≡ some r
      → Follows seeds (rounds_from primitives hash_to_group cfg seeds first) i r
  unfolding rounds_from
  rounds_from-Follows [] first i r h = split (is_last cfg.max_segments first.segment) h
    where
      split :
          (b : Bool)
          → get_elem? (if b then [] else first ∷ []) (suc i) ≡ some r
          → Follows [] (if b then [] else first ∷ []) i r
      split true h = absurd (cc h)
      split false h = absurd (cc h)
  rounds_from-Follows (seed ∷ seeds) first i r h =
      split (is_last cfg.max_segments first.segment) i (λ j. rounds_from-Follows seeds next j r) h
    where
      next : SegmentRound
      next = next_round primitives hash_to_group cfg first seed

      rest : List SegmentRound
      rest = rounds_from primitives hash_to_group cfg seeds next

      split :
          (b : Bool) (i : ℕ)
          → ((j : ℕ) → get_elem? rest (suc j) ≡ some r → Follows seeds rest j r)
          → get_elem? (if b then [] else first ∷ rest) (suc i) ≡ some r
          → Follows (seed ∷ seeds) (if b then [] else first ∷ rest) i r
      split true i later h = absurd (cc h)
      split false zero later h = (first, seed, refl, refl, rounds_from-head seeds next r h)
      split false (suc i) later h = later i h

  pub clock_rounds-Follows :
      (seeds : List SeedInput) (i : ℕ) (r : SegmentRound)
      → get_elem? (clock_rounds primitives hash_to_group cfg seeds) (suc i) ≡ some r
      → Follows seeds (clock_rounds primitives hash_to_group cfg seeds) i r
  unfolding clock_rounds
  clock_rounds-Follows seeds i r h =
      rounds_from-Follows seeds (first_round primitives hash_to_group cfg) i r h

  pub clock_rounds-first :
      (seeds : List SeedInput) (r : SegmentRound)
      → get_elem? (clock_rounds primitives hash_to_group cfg seeds) 0 ≡ some r
      → r ≡ first_round primitives hash_to_group cfg
  unfolding clock_rounds
  clock_rounds-first seeds r h =
      rounds_from-head seeds (first_round primitives hash_to_group cfg) r h
