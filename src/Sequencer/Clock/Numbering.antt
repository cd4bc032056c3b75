-- ===== src/Sequencer/Clock/Numbering.antt =====
-- The global tick numbers of the clock (crates/sequencer/src/clock.rs).
use lighter_integration.Base.{
  ℕ, zero, suc, ◌+◌, ◌*◌, ◌^◌, ◌<◌, ◌≤◌, ◌≡◌, refl, sym, ap, ◌∙◌, Bytes, List, [], ◌∷◌, ◌++◌, map,
  length, wrap, arith,
}
use mathlib.Core.List.{append-nil}
use lighter_integration.Vdf.Posq.{Group, tick_advance}
use lighter_integration.Sequencer.Identity.{Primitives}
use lighter_integration.Sequencer.Node.{SeedInput}
use lighter_integration.Sequencer.Clock.{segment_events}
use lighter_integration.Sequencer.Clock.Loop.{
  ClockConfig, ClockEvent, ticked, ended, SegmentRound, y_of, x_end_of, round_events, events_of,
  clock_rounds, run_clock,
}
use lighter_integration.Sequencer.Clock.Rounds.{
  Consecutive, clock_rounds-Consecutive, length-clock_rounds,
}

-- The numbers of the ticks among the events.
unfoldable pub numbers : List ClockEvent → List ℕ
numbers [] = []
numbers (ticked t ∷ events) = t.tick ∷ numbers events
numbers (ended segment y x_end ∷ events) = numbers events

pub numbers-append : (xs ys : List ClockEvent) → numbers (xs ++ ys) ≡ numbers xs ++ numbers ys
unfolding numbers
numbers-append [] ys = refl
numbers-append (ticked t ∷ xs) ys = ap (λ l. t.tick ∷ l) (numbers-append xs ys)
numbers-append (ended segment y x_end ∷ xs) ys = numbers-append xs ys

-- `count` numbers from `a` on.
unfoldable pub count_up : ℕ → ℕ → List ℕ
count_up a zero = []
count_up a (suc count) = a ∷ count_up (a + 1) count

count_up-append : (a m n : ℕ) → count_up a m ++ count_up (a + m) n ≡ count_up a (m + n)
unfolding count_up
count_up-append a zero n =
    let e : a + 0 ≡ a = omega arith in let e' : 0 + n ≡ n = omega arith in rw (e, e') refl
count_up-append a (suc m) n =
    let e : a + suc m ≡ a + 1 + m = omega arith in
    let e' : suc m + n ≡ suc (m + n) = omega arith in
    rw (e, e') (ap (λ l. a ∷ l) (count_up-append (a + 1) m n))

-- What follows a prefix of the numbers from `a` on.
pub count_up-next : (xs ys : List ℕ) (t a n : ℕ) → xs ++ t ∷ ys ≡ count_up a n → t ≡ a + length xs
unfolding count_up
count_up-next [] ys t a zero h = absurd (cc h)
count_up-next [] ys t a (suc n) h = let e : t ≡ a = cc h in omega (arith, e)
count_up-next (x ∷ xs) ys t a zero h = absurd (cc h)
count_up-next (x ∷ xs) ys t a (suc n) h =
    let rest : xs ++ t ∷ ys ≡ count_up (a + 1) n = cc h in
    omega (arith, count_up-next xs ys t (a + 1) n rest)

-- A round numbers its ticks from the number before it on.
numbers-segment_events :
    (group : Group) (q segment_ticks segment left i x : ℕ)
    → segment * segment_ticks + i + left < 2 ^ 64
    → numbers (map ticked (segment_events group q segment_ticks segment left i x))
      ≡ count_up (segment * segment_ticks + i + 1) left
unfolding segment_events numbers count_up
numbers-segment_events group q segment_ticks segment zero i x fits = refl
numbers-segment_events group q segment_ticks segment (suc left) i x fits =
    let here : wrap (wrap (wrap (segment * segment_ticks) + i) + 1)
        ≡ segment * segment_ticks + i + 1 =
      omega arith in
    let next : segment * segment_ticks + i + 1 + 1 ≡ segment * segment_ticks + (i + 1) + 1 =
      omega arith in
    rw (here, next)
      (ap (λ l. (segment * segment_ticks + i + 1) ∷ l)
        (numbers-segment_events group q segment_ticks segment left (i + 1) (tick_advance group x q)
          (omega arith)))

mul_le : (a b c : ℕ) → a ≤ b → a * c ≤ b * c
mul_le a b c h = grind arith

module _ (primitives : Primitives) (hash_to_group : Bytes → Bytes → ℕ) (cfg : ClockConfig) where
  numbers-round_events :
      (r : SegmentRound)
      → r.segment * cfg.segment_ticks + cfg.segment_ticks < 2 ^ 64
      → numbers (round_events primitives hash_to_group cfg r)
        ≡ count_up (r.segment * cfg.segment_ticks + 1) cfg.segment_ticks
  unfolding round_events numbers
  numbers-round_events r fits =
      let y = y_of primitives hash_to_group cfg r in
      let ticks =
        segment_events cfg.group cfg.q cfg.segment_ticks r.segment cfg.segment_ticks 0 y in
      let start : r.segment * cfg.segment_ticks + 0 + 1 ≡ r.segment * cfg.segment_ticks + 1 =
        omega arith in
      numbers-append (map ticked ticks)
        (ended r.segment y (x_end_of primitives hash_to_group cfg r) ∷ [])
      ∙ append-nil (numbers (map ticked ticks))
      ∙ numbers-segment_events cfg.group cfg.q cfg.segment_ticks r.segment cfg.segment_ticks 0 y
          (omega arith)
      ∙ ap (λ a. count_up a cfg.segment_ticks) start

  -- Rounds of consecutive segments number their ticks one after the other.
  numbers-events_of :
      (rounds : List SegmentRound) (s : ℕ)
      → Consecutive s rounds
      → (s + length rounds) * cfg.segment_ticks < 2 ^ 64
      → numbers (events_of primitives hash_to_group cfg rounds)
        ≡ count_up (s * cfg.segment_ticks + 1) (length rounds * cfg.segment_ticks)
  unfolding events_of numbers count_up
  numbers-events_of [] s c fits = let none : 0 * cfg.segment_ticks ≡ 0 = omega arith in rw none refl
  numbers-events_of (r ∷ rounds) s (at, c) fits =
      let ticks = cfg.segment_ticks in
      let here : r.segment * ticks ≡ s * ticks = ap (λ n. n * ticks) at in
      let size : suc (length rounds) * ticks ≡ ticks + length rounds * ticks = grind arith in
      let more : (s + 1) * ticks ≡ s * ticks + ticks = grind arith in
      let total : (s + suc (length rounds)) * ticks ≡ s * ticks + ticks + length rounds * ticks =
        grind arith in
      let total' : (s + 1 + length rounds) * ticks ≡ s * ticks + ticks + length rounds * ticks =
        grind arith in
      let start : (s + 1) * ticks + 1 ≡ s * ticks + 1 + ticks = omega (arith, more) in
      let start' : r.segment * ticks + 1 ≡ s * ticks + 1 = omega (arith, here) in
      numbers-append (round_events primitives hash_to_group cfg r)
        (events_of primitives hash_to_group cfg rounds)
      ∙ ap (λ l. l ++ numbers (events_of primitives hash_to_group cfg rounds))
          (numbers-round_events r (omega (arith, here, total, fits))
            ∙ ap (λ a. count_up a ticks) start')
      ∙ ap (λ l. count_up (s * ticks + 1) ticks ++ l)
          (numbers-events_of rounds (s + 1) c (omega (arith, total, total', fits))
            ∙ ap (λ a. count_up a (length rounds * ticks)) start)
      ∙ count_up-append (s * ticks + 1) ticks (length rounds * ticks)
      ∙ ap (count_up (s * ticks + 1)) (sym size)

  -- The ticks that the clock sends, all segments together, are numbered one after the other from 1
  -- on: as many as there are rounds of the loop, times the ticks of a segment. The numbers are to fit in 64 bits.
  pub numbers-run_clock :
      (seeds : List SeedInput)
      → length seeds + 1 < 2 ^ 64
      → (length seeds + 1) * cfg.segment_ticks < 2 ^ 64
      → numbers (run_clock primitives hash_to_group cfg seeds)
        ≡ count_up 1 (length (clock_rounds primitives hash_to_group cfg seeds) * cfg.segment_ticks)
  unfolding run_clock
  numbers-run_clock seeds few fits =
      let rounds = clock_rounds primitives hash_to_group cfg seeds in
      let short = length-clock_rounds primitives hash_to_group cfg seeds in
      let begin : 0 * cfg.segment_ticks + 1 ≡ 1 = omega arith in
      numbers-events_of rounds 0 (clock_rounds-Consecutive primitives hash_to_group cfg seeds few)
        (omega (arith, fits, mul_le _ _ cfg.segment_ticks short))
      ∙ ap (λ a. count_up a (length rounds * cfg.segment_ticks)) begin
