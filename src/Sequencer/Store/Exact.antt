-- ===== src/Sequencer/Store/Exact.antt =====
-- What the execution cutoff (crates/sequencer/src/node.rs) does to each position of a tape
-- (crates/sequencer/src/store.rs).
use lighter_integration.Base.{
  ℕ, ◌≡◌, refl, ap, ◌∙◌, Bool, true, false, List, [], ◌∷◌, All, if◌then◌else◌, arith,
}
use lighter_integration.Sequencer.Store.{
  Outcome, pending, opened, gap, unopened, TapePosition, ChainStore, same_key, key_before, resolve,
  update, is_overdue, overdue_in, overdue_positions, cut_off,
}
use lighter_integration.Sequencer.Store.Cutoff.{Tape, gaps, settle, set_gaps_tape, gaps_cons}
use lighter_integration.Sequencer.Store.Sorted.{
  IsSorted, before-same_key, AllAfter, Built, Built-IsSorted,
}

-- Each position that is overdue is a gap, and every other one stays as it is.
unfoldable pub settled_tape : ℕ → ℕ → Tape → Tape
unfolding is_overdue
settled_tape tick grace [] = []
settled_tape tick grace ((k, q) ∷ tape) =
    (k, (if is_overdue tick grace q.outcome then record q { outcome = gap unopened } else q))
    ∷ settled_tape tick grace tape

update_after :
    (k : ℕ × ℕ) (new : Outcome) (tape : Tape) → AllAfter k tape → update k new tape ≡ tape
unfolding update
update_after k new [] h = refl
update_after k new ((j, q) ∷ tape) (h, hs) =
    rw (before-same_key k j h) (ap (λ l. (j, q) ∷ l) (update_after k new tape hs))

settle_unlisted :
    (keys : List (ℕ × ℕ)) (k : ℕ × ℕ) (q : TapePosition)
    → All (λ j. same_key k j ≡ false) keys
    → settle keys k q ≡ q
settle_unlisted [] k q h = refl
settle_unlisted (j ∷ keys) k q (h, hs) = rw h (settle_unlisted keys k q hs)

same_key_self : (k : ℕ × ℕ) → same_key k k ≡ true
same_key_self k = ground arith

update_head :
    (k : ℕ × ℕ) (new : Outcome) (q : TapePosition) (tape : Tape)
    → AllAfter k tape
    → update k new ((k, q) ∷ tape) ≡ (k, resolve new q) ∷ tape
unfolding update
update_head k new q tape h =
    rw (same_key_self k) (ap (λ l. (k, resolve new q) ∷ l) (update_after k new tape h))

before-other : (k j : ℕ × ℕ) → key_before k j ≡ true → same_key k j ≡ false
before-other k j h = ground (arith, h)

module _ (tick grace : ℕ) where
  overdue_in-others :
      (k : ℕ × ℕ) (tape : Tape)
      → AllAfter k tape
      → All (λ j. same_key k j ≡ false) (overdue_in tick grace tape)
  unfolding overdue_in
  overdue_in-others k [] h = tt
  overdue_in-others k ((j, q) ∷ tape) (h, hs) =
      split (is_overdue tick grace q.outcome) (overdue_in-others k tape hs)
    where
      split :
          (late : Bool)
          → All (λ i. same_key k i ≡ false) (overdue_in tick grace tape)
          → All
              (λ i. same_key k i ≡ false)
              (if late then j ∷ overdue_in tick grace tape else overdue_in tick grace tape)
      split true rest = (before-other k j h, rest)
      split false rest = rest

  filled_overdue :
      (q : TapePosition)
      → is_overdue tick grace q.outcome ≡ true
      → resolve (gap unopened) q ≡ record q { outcome = gap unopened }
  unfolding resolve is_overdue
  filled_overdue q h = split q.outcome h
    where
      split :
          (o : Outcome)
          → is_overdue tick grace o ≡ true
          → elim o as (λ _. TapePosition) [
            | pending m ↦ record q { outcome = gap unopened }
            | opened i ↦ q
            | gap r ↦ q
          ]
            ≡ record q { outcome = gap unopened }
      split (pending m) h = refl
      split (opened i) h = absurd (cc h)
      split (gap r) h = absurd (cc h)

  gaps_overdue :
      (tape : Tape)
      → IsSorted tape
      → gaps (overdue_in tick grace tape) tape ≡ settled_tape tick grace tape
  unfolding overdue_in settled_tape
  gaps_overdue [] s = refl
  gaps_overdue ((k, q) ∷ tape) (after, s) =
      split (is_overdue tick grace q.outcome) refl (gaps_overdue tape s)
    where
      late : List (ℕ × ℕ)
      late = overdue_in tick grace tape

      split :
          (b : Bool)
          → is_overdue tick grace q.outcome ≡ b
          → gaps late tape ≡ settled_tape tick grace tape
          → gaps (if b then k ∷ late else late) ((k, q) ∷ tape)
            ≡ (k, (if b then record q { outcome = gap unopened } else q))
              ∷ settled_tape tick grace tape
      split true e rest =
          ap (gaps late) (update_head k (gap unopened) q tape after)
          ∙ gaps_cons late k (resolve (gap unopened) q) tape
          ∙ ap (λ x. (k, x) ∷ gaps late tape)
              (settle_unlisted late k (resolve (gap unopened) q) (overdue_in-others k tape after))
          ∙ ap (λ x. (k, x) ∷ gaps late tape) (filled_overdue q e)
          ∙ ap (λ l. (k, record q { outcome = gap unopened }) ∷ l) rest
      split false e rest =
          gaps_cons late k q tape
          ∙ ap (λ x. (k, x) ∷ gaps late tape)
              (settle_unlisted late k q (overdue_in-others k tape after))
          ∙ ap (λ l. (k, q) ∷ l) rest

  -- In a store that its operations made of an empty one, the execution cutoff of a tick makes a gap
  -- of every position that is pending and overdue at the tick, in its place on the tape, and leaves
  -- every other position as it is: what matures later stays pending.
  pub cut_off-settled :
      (store : ChainStore)
      → Built store
      → (cut_off store tick grace).tape ≡ settled_tape tick grace store.tape
  unfolding cut_off overdue_positions
  cut_off-settled store b =
      set_gaps_tape (overdue_in tick grace store.tape) store
      ∙ gaps_overdue store.tape (Built-IsSorted b)
