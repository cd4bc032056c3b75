-- ===== src/Sequencer/Admission/Buffers.antt =====
-- Predicates of all buffers of an admission (crates/sequencer/src/admission.rs), under the operations of
-- the map that holds them.
use lighter_integration.Base.{
  ℕ, ◌<◌, ◌≤◌, ◌≡◌, refl, Bool, true, false, List, [], ◌∷◌, none, All, arith, ltb, ◌==◌, ==_iff,
  if◌then◌else◌, Bool-cases, inl, inr,
}
use mathlib.Core.Path.{subst}
use lighter_integration.Sequencer.Admission.{
  TickBuffer, default_buffer, buffer_or_default, get_tick, put_tick, drop_tick,
}

module _ {ℓ} (P : ℕ → TickBuffer → Type ℓ) where
  abbrev pub Buffers : List (ℕ × TickBuffer) → Type ℓ
  Buffers ticks = All (λ kb. P kb.0 kb.1) ticks

  pub Buffers-put_tick :
      (t : ℕ) (b : TickBuffer) (ticks : List (ℕ × TickBuffer))
      → P t b
      → Buffers ticks
      → Buffers (put_tick t b ticks)
  unfolding put_tick
  Buffers-put_tick t b [] hb h = (hb, tt)
  Buffers-put_tick t b ((k, c) ∷ ticks) hb (hc, h) =
      split (k == t) (ltb t k) (Buffers-put_tick t b ticks hb h)
    where
      split :
          (same before : Bool)
          → Buffers (put_tick t b ticks)
          → Buffers (
              if same
              then (t, b) ∷ ticks
              else if before
              then (t, b) ∷ (k, c) ∷ ticks
              else (k, c) ∷ put_tick t b ticks)
      split true before rest = (hb, h)
      split false true rest = (hb, (hc, h))
      split false false rest = (hc, rest)

  pub Buffers-drop_tick :
      (t : ℕ) (ticks : List (ℕ × TickBuffer)) → Buffers ticks → Buffers (drop_tick t ticks)
  unfolding drop_tick
  Buffers-drop_tick t [] h = tt
  Buffers-drop_tick t ((k, c) ∷ ticks) (hc, h) = split (k == t) (Buffers-drop_tick t ticks h)
    where
      split :
          (same : Bool)
          → Buffers (drop_tick t ticks)
          → Buffers (if same then drop_tick t ticks else (k, c) ∷ drop_tick t ticks)
      split true rest = rest
      split false rest = (hc, rest)

  pub Buffers-get_tick :
      (t : ℕ) (ticks : List (ℕ × TickBuffer))
      → P t default_buffer
      → Buffers ticks
      → P t (buffer_or_default (get_tick t ticks))
  unfolding get_tick
  Buffers-get_tick t [] hd h = hd
  Buffers-get_tick t ((k, c) ∷ ticks) hd (hc, h) = elim (Bool-cases (k == t)) [
    | inl e ↦ rw e (subst (λ (n : ℕ). P n c) ((==_iff k t).0 e) hc)
    | inr e ↦ rw e (Buffers-get_tick t ticks hd h)
  ]

-- The keys are in ascending order, as in the map.
abbrev pub Above : ℕ → List (ℕ × TickBuffer) → Type 0
Above k = Buffers (λ t b. k < t)

abbrev pub Ascending : List (ℕ × TickBuffer) → Type 0
Ascending [] = Unit
Ascending ((k, b) ∷ ticks) = Above k ticks × Ascending ticks

pub get_tick-Above :
    (t k : ℕ) (ticks : List (ℕ × TickBuffer)) → t ≤ k → Above k ticks → get_tick t ticks ≡ none
unfolding get_tick
get_tick-Above t k [] le h = refl
get_tick-Above t k ((j, b) ∷ ticks) le (above, h) =
    let other : (j == t) ≡ false = ground arith in rw other (get_tick-Above t k ticks le h)

Above-trans : (k j : ℕ) (ticks : List (ℕ × TickBuffer)) → k < j → Above j ticks → Above k ticks
Above-trans k j [] lt h = tt
Above-trans k j ((i, b) ∷ ticks) lt (above, h) = (omega arith, Above-trans k j ticks lt h)

pub Ascending-put_tick :
    (t : ℕ) (b : TickBuffer) (ticks : List (ℕ × TickBuffer))
    → Ascending ticks
    → Ascending (put_tick t b ticks)
unfolding put_tick
Ascending-put_tick t b [] h = (tt, tt)
Ascending-put_tick t b ((k, c) ∷ ticks) (above, h) =
    split (k == t) (ltb t k) refl refl (Ascending-put_tick t b ticks h)
  where
    split :
        (same before : Bool)
        → (k == t) ≡ same
        → ltb t k ≡ before
        → Ascending (put_tick t b ticks)
        → Ascending (
            if same
            then (t, b) ∷ ticks
            else if before
            then (t, b) ∷ (k, c) ∷ ticks
            else (k, c) ∷ put_tick t b ticks)
    split true before e lt rest = (subst (λ (n : ℕ). Above n ticks) ((==_iff k t).0 e) above, h)
    split false true e lt rest =
        ((ground arith, Above-trans t k ticks (ground arith) above), (above, h))
    split false false e lt rest =
        (Buffers-put_tick (λ n c. k < n) t b ticks (ground arith) above, rest)

pub Ascending-drop_tick :
    (t : ℕ) (ticks : List (ℕ × TickBuffer)) → Ascending ticks → Ascending (drop_tick t ticks)
unfolding drop_tick
Ascending-drop_tick t [] h = tt
Ascending-drop_tick t ((k, c) ∷ ticks) (above, h) = elim (Bool-cases (k == t)) [
  | inl e ↦ rw e (Ascending-drop_tick t ticks h)
  | inr e ↦ rw e (Buffers-drop_tick (λ n c. k < n) t ticks above, Ascending-drop_tick t ticks h)
]
