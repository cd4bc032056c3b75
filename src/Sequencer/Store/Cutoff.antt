-- ===== src/Sequencer/Store/Cutoff.antt =====
-- The execution cutoff (crates/sequencer/src/node.rs, over crates/sequencer/src/store.rs) and the positions
-- that are overdue.
use lighter_integration.Base.{
  ℕ, ◌≡◌, refl, ap, ◌∙◌, Bool, true, false, ◌||◌, List, [], ◌∷◌, All, if◌then◌else◌, arith,
}
use lighter_integration.Sequencer.Store.{
  Outcome, pending, opened, gap, unopened, TapePosition, ChainStore, same_key, resolve, update,
  set_outcome, is_overdue, overdue_in, overdue_positions, set_gaps, cut_off,
}

abbrev pub Tape : Type 0
Tape = List ((ℕ × ℕ) × TapePosition)

abbrev pub filled : TapePosition → TapePosition
filled q = resolve (gap unopened) q

-- `set_gaps` on the tape, and on one position of it.
abbrev pub gaps : List (ℕ × ℕ) → Tape → Tape
gaps [] tape = tape
gaps (key ∷ keys) tape = gaps keys (update key (gap unopened) tape)

abbrev pub settle : List (ℕ × ℕ) → ℕ × ℕ → TapePosition → TapePosition
settle [] k q = q
settle (key ∷ keys) k q = settle keys k (if same_key k key then filled q else q)

-- Some key of the list is this one.
abbrev pub listed : ℕ × ℕ → List (ℕ × ℕ) → Bool
listed k [] = false
listed k (key ∷ keys) = same_key k key || listed k keys

pub set_gaps_tape :
    (keys : List (ℕ × ℕ)) (store : ChainStore) → (set_gaps keys store).tape ≡ gaps keys store.tape
unfolding set_gaps set_outcome
set_gaps_tape [] store = refl
set_gaps_tape ((t, j) ∷ keys) store = set_gaps_tape keys _

gaps_nil : (keys : List (ℕ × ℕ)) → gaps keys [] ≡ []
unfolding update
gaps_nil [] = refl
gaps_nil (key ∷ keys) = gaps_nil keys

update_cons :
    (key k : ℕ × ℕ) (q : TapePosition) (tape : Tape)
    → update key (gap unopened) ((k, q) ∷ tape)
      ≡ (k, (if same_key k key then filled q else q)) ∷ update key (gap unopened) tape
unfolding update
update_cons key k q tape = split (same_key k key)
  where
    split :
        (same : Bool)
        → (if same
            then (k, filled q) ∷ update key (gap unopened) tape
            else (k, q) ∷ update key (gap unopened) tape)
          ≡ (k, (if same then filled q else q)) ∷ update key (gap unopened) tape
    split true = refl
    split false = refl

pub gaps_cons :
    (keys : List (ℕ × ℕ)) (k : ℕ × ℕ) (q : TapePosition) (tape : Tape)
    → gaps keys ((k, q) ∷ tape) ≡ (k, settle keys k q) ∷ gaps keys tape
gaps_cons [] k q tape = refl
gaps_cons (key ∷ keys) k q tape =
    ap (gaps keys) (update_cons key k q tape) ∙ gaps_cons keys k _ (update key (gap unopened) tape)

module _ (tick grace : ℕ) where
  abbrev Settled : TapePosition → Type 0
  Settled q = is_overdue tick grace q.outcome ≡ false

  Settled-filled : (q : TapePosition) → Settled (filled q)
  unfolding resolve is_overdue
  Settled-filled q = split q.outcome refl
    where
      split :
          (o : Outcome)
          → q.outcome ≡ o
          → Settled (elim o as (λ _. TapePosition) [
            | pending m ↦ record q { outcome = gap unopened }
            | opened i ↦ q
            | gap r ↦ q
          ])
      split (pending m) e = refl
      split (opened i) e = rw e refl
      split (gap r) e = rw e refl

  Settled-if : (same : Bool) (q : TapePosition) → Settled q → Settled (if same then filled q else q)
  Settled-if true q h = Settled-filled q
  Settled-if false q h = h

  -- A position that is not overdue stays so, and a listed position is not overdue afterwards.
  Settled-settle :
      (keys : List (ℕ × ℕ)) (k : ℕ × ℕ) (q : TapePosition) → Settled q → Settled (settle keys k q)
  Settled-settle [] k q h = h
  Settled-settle (key ∷ keys) k q h = Settled-settle keys k _ (Settled-if (same_key k key) q h)

  listed-Settled :
      (keys : List (ℕ × ℕ)) (k : ℕ × ℕ) (q : TapePosition)
      → listed k keys ≡ true
      → Settled (settle keys k q)
  listed-Settled [] k q h = cc
  listed-Settled (key ∷ keys) k q h = split (same_key k key) h (listed-Settled keys k q)
    where
      split :
          (same : Bool)
          → (same || listed k keys) ≡ true
          → (listed k keys ≡ true → Settled (settle keys k q))
          → Settled (settle keys k (if same then filled q else q))
      split true h rest = Settled-settle keys k (filled q) (Settled-filled q)
      split false h rest = rest h

  overdue_cons :
      (k : ℕ × ℕ) (q : TapePosition) (tape : Tape)
      → Settled q
      → overdue_in tick grace ((k, q) ∷ tape) ≡ overdue_in tick grace tape
  unfolding overdue_in
  overdue_cons k q tape h = rw (overdue_in, h) refl

  -- The head of the tape is listed if it is overdue, and the rest is listed.
  overdue_head :
      (keys : List (ℕ × ℕ)) (k : ℕ × ℕ) (q : TapePosition) (tape : Tape)
      → All (λ j. listed j keys ≡ true) (overdue_in tick grace ((k, q) ∷ tape))
      → Settled (settle keys k q) × All (λ j. listed j keys ≡ true) (overdue_in tick grace tape)
  unfolding overdue_in
  overdue_head keys k q tape h = split (is_overdue tick grace q.outcome) refl h
    where
      split :
          (late : Bool)
          → is_overdue tick grace q.outcome ≡ late
          → All
              (λ j. listed j keys ≡ true)
              (if late then k ∷ overdue_in tick grace tape else overdue_in tick grace tape)
          → Settled (settle keys k q) × All (λ j. listed j keys ≡ true) (overdue_in tick grace tape)
      split true e (hk, rest) = (listed-Settled keys k q hk, rest)
      split false e rest = (Settled-settle keys k q e, rest)

  overdue_none :
      (keys : List (ℕ × ℕ)) (tape : Tape)
      → All (λ k. listed k keys ≡ true) (overdue_in tick grace tape)
      → overdue_in tick grace (gaps keys tape) ≡ []
  unfolding overdue_in
  overdue_none keys [] h = ap (overdue_in tick grace) (gaps_nil keys)
  overdue_none keys ((k, q) ∷ tape) h =
      let (settled, rest) = overdue_head keys k q tape h in
      ap (overdue_in tick grace) (gaps_cons keys k q tape)
      ∙ (overdue_cons k (settle keys k q) (gaps keys tape) settled ∙ overdue_none keys tape rest)

  listed_more :
      (k : ℕ × ℕ) (keys js : List (ℕ × ℕ))
      → All (λ j. listed j keys ≡ true) js
      → All (λ j. listed j (k ∷ keys) ≡ true) js
  listed_more k keys [] h = tt
  listed_more k keys (j ∷ js) (hj, h) = (ground arith, listed_more k keys js h)

  listed-All : (keys : List (ℕ × ℕ)) → All (λ j. listed j keys ≡ true) keys
  listed-All [] = tt
  listed-All ((t, p) ∷ keys) = (ground arith, listed_more (t, p) keys keys (listed-All keys))

  -- After the execution cutoff of a tick no position is overdue at that tick.
  pub overdue_positions-cut_off :
      (store : ChainStore) → overdue_positions (cut_off store tick grace) tick grace ≡ []
  unfolding overdue_positions cut_off
  overdue_positions-cut_off store =
      ap (overdue_in tick grace) (set_gaps_tape (overdue_in tick grace store.tape) store)
      ∙ overdue_none (overdue_in tick grace store.tape) store.tape
          (listed-All (overdue_in tick grace store.tape))
