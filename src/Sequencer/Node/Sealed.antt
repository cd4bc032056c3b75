-- ===== src/Sequencer/Node/Sealed.antt =====
-- The seals that the coordinator (crates/sequencer/src/node.rs) keeps of the segments of its clock
-- (crates/sequencer/src/clock.rs).
use lighter_integration.Base.{
  ℕ, ◌≡◌, ◌≢◌, refl, sym, ap, ◌∙◌, Bytes, List, [], ◌∷◌, ◌++◌, map, none, some, arith,
}
use native.Mathlib.Decide.{ℕ_discrete}
use lighter_integration.Sequencer.Identity.{Primitives}
use lighter_integration.Sequencer.Clock.{Tick, segment_events}
use lighter_integration.Sequencer.Clock.Loop.{
  ClockConfig, ClockEvent, ticked, ended, SegmentRound, y_of, x_end_of, round_events, events_of,
}
use lighter_integration.Sequencer.Node.Anchors.{get}
use lighter_integration.Sequencer.Node.Coordinator.{drop_key}
use lighter_integration.Sequencer.Node.Clocked.{ends_of}

pub ends_of-append : (xs ys : List ClockEvent) → ends_of (xs ++ ys) ≡ ends_of xs ++ ends_of ys
unfolding ends_of
ends_of-append [] ys = refl
ends_of-append (ticked t ∷ xs) ys = ends_of-append xs ys
ends_of-append (ended segment y x_end ∷ xs) ys =
    ap (λ l. (segment, (y, x_end)) ∷ l) (ends_of-append xs ys)

ends_of-ticked :
    (ts : List Tick) (ys : List ClockEvent) → ends_of (map ticked ts ++ ys) ≡ ends_of ys
unfolding ends_of
ends_of-ticked [] ys = refl
ends_of-ticked (t ∷ ts) ys = ends_of-ticked ts ys

module _ {ℓ} {A : Type ℓ} where
  get-drop_key_self : (key : ℕ) (m : List (ℕ × A)) → get key (drop_key key m) ≡ none
  unfolding get drop_key
  get-drop_key_self key [] = refl
  get-drop_key_self key ((j, w) ∷ m) = ground (arith, get-drop_key_self key m)

  get-drop_key_other : (key k : ℕ) (m : List (ℕ × A)) → key ≢ k → get k (drop_key key m) ≡ get k m
  unfolding get drop_key
  get-drop_key_other key k [] h = refl
  get-drop_key_other key k ((j, w) ∷ m) h = ground (arith, get-drop_key_other key k m h)

  -- What is left after a key is dropped was there before.
  pub get-drop_key :
      (key k : ℕ) (m : List (ℕ × A)) (v : A) → get k (drop_key key m) ≡ some v → get k m ≡ some v
  get-drop_key key k m v h = elim (ℕ_discrete key k) [
    | yes e ↦ absurd (
        let gone = get-drop_key_self key m in
        let at : get key (drop_key key m) ≡ some v = ap (λ j. get j (drop_key key m)) e ∙ h in
        cc (gone, at))
    | no d ↦ sym (get-drop_key_other key k m d) ∙ h
  ]

module _ (primitives : Primitives) (hash_to_group : Bytes → Bytes → ℕ) (cfg : ClockConfig) where
  unfoldable pub end_of : SegmentRound → ℕ × (ℕ × ℕ)
  end_of r =
      (r.segment, (y_of primitives hash_to_group cfg r, x_end_of primitives hash_to_group cfg r))

  pub ends_of-events_of :
      (rounds : List SegmentRound)
      → ends_of (events_of primitives hash_to_group cfg rounds) ≡ map end_of rounds
  unfolding ends_of events_of round_events end_of
  ends_of-events_of [] = refl
  ends_of-events_of (r ∷ rounds) =
      ends_of-append (round_events primitives hash_to_group cfg r)
        (events_of primitives hash_to_group cfg rounds)
      ∙ ap (λ l. l ++ ends_of (events_of primitives hash_to_group cfg rounds))
          (ends_of-ticked
            (segment_events cfg.group cfg.q cfg.segment_ticks r.segment cfg.segment_ticks 0
              (y_of primitives hash_to_group cfg r))
            (ended r.segment (y_of primitives hash_to_group cfg r)
                (x_end_of primitives hash_to_group cfg r)
              ∷ []))
      ∙ ap (λ l. end_of r ∷ l) (ends_of-events_of rounds)
