-- ===== src/Sequencer/Node/Log.antt =====
-- The span of ticks that the coordinator (crates/sequencer/src/node.rs) has sealed, and what a tick more
-- does to it.
use lighter_integration.Base.{
  Bool-cases, inl, inr, ◌==◌, ℕ, zero, suc, ◌+◌, ◌<◌, ◌≡◌, ◌≢◌, refl, sym, ap, ◌∙◌, Hash32, List,
  [], ◌∷◌, Option, some, none, arith,
}
use mathlib.Core.Path.{subst, subst₂}
use lighter_integration.Sequencer.Identity.{Primitives, Address}
use lighter_integration.Sequencer.Admission.{PendingEntry}
use lighter_integration.Sequencer.Store.{
  ChainStore, SealedTick, insert, add_position, set_gaps, set_outcome,
}
use lighter_integration.Sequencer.Params.{PosqParams}
use lighter_integration.Sequencer.Transcript.Valid.{seen_after, ValidTick, Span}
use lighter_integration.Sequencer.Node.Tick.{tape_entries}
use lighter_integration.Sequencer.Node.Anchors.{get, keys_bound}

module _ {ℓ} {A : Type ℓ} where
  pub get-insert_self : (k : ℕ) (v : A) (map : List (ℕ × A)) → get k (insert k v map) ≡ some v
  unfolding get insert
  get-insert_self k v [] = ground arith
  get-insert_self k v ((j, w) ∷ map) = ground (arith, get-insert_self k v map)

  pub get-insert_other :
      (k j : ℕ) (v : A) (map : List (ℕ × A)) → k ≢ j → get j (insert k v map) ≡ get j map
  unfolding get insert
  get-insert_other k j v [] h = ground arith
  get-insert_other k j v ((i, w) ∷ map) h = ground (arith, get-insert_other k j v map h)

-- Every key is below the bound.
pub get_below {ℓ} :
    {A : Type ℓ} (key : ℕ) (map : List (ℕ × A)) (v : A)
    → get key map ≡ some v
    → key < keys_bound map
unfolding get keys_bound
get_below key [] v h = absurd (cc h)
get_below key ((k, w) ∷ map) v h = elim (Bool-cases (k == key)) [
  | inl e ↦ ground arith
  | inr e ↦
      let later : get key map ≡ some v = rw e at h in
      let below = get_below key map v later in ground (arith, below)
]

-- The hashes that are seen after `count` ticks from `t` on.
unfoldable pub span_seen : (ℕ → Option SealedTick) → ℕ → ℕ → List Hash32 → List Hash32
span_seen ticks zero t seen = seen
span_seen ticks (suc count) t seen = elim (ticks t) [
  | none ↦ seen
  | some sealed ↦ span_seen ticks count (t + 1) (seen_after seen sealed.entries)
]

span_seen_step :
    (ticks : ℕ → Option SealedTick) (count t : ℕ) (seen : List Hash32) (sealed : SealedTick)
    → ticks t ≡ some sealed
    → span_seen ticks (suc count) t seen
      ≡ span_seen ticks count (t + 1) (seen_after seen sealed.entries)
unfolding span_seen
span_seen_step ticks count t seen sealed found = rw (found, span_seen) refl

module _ (primitives : Primitives) (epoch : ℕ) (sequencer : Address) where
  -- A span stays one where its ticks stay.
  pub Span-agree :
      (ticks ticks' : ℕ → Option SealedTick) (count t : ℕ) (c c' : Hash32) (seen : List Hash32)
      → ((j : ℕ) → j < t + count → ticks' j ≡ ticks j)
      → Span primitives epoch sequencer ticks count t c c' seen
      → Span primitives epoch sequencer ticks' count t c c' seen
        × (span_seen ticks' count t seen ≡ span_seen ticks count t seen)
  unfolding span_seen
  Span-agree ticks ticks' zero t c c' seen same h = (h, refl)
  Span-agree ticks ticks' (suc count) t c c' seen same (sealed, found, valid, rest) =
      let found' : ticks' t ≡ some sealed = same t (omega arith) ∙ found in
      let (later, hashes) =
        Span-agree ticks ticks' count (t + 1) sealed.record_of.c_t c'
          (seen_after seen sealed.entries) (λ j l. same j (omega arith)) rest in
      (
        (sealed, found', valid, later),
        span_seen_step ticks' count t seen sealed found'
            ∙ (hashes ∙ sym (span_seen_step ticks count t seen sealed found)),
      )

  -- One valid tick more.
  pub Span-snoc :
      (ticks : ℕ → Option SealedTick) (count t n : ℕ) (c c' : Hash32) (seen : List Hash32)
      (sealed : SealedTick)
      → n ≡ t + count
      → Span primitives epoch sequencer ticks count t c c' seen
      → ticks n ≡ some sealed
      → ValidTick primitives epoch sequencer n c' (span_seen ticks count t seen) sealed
      → Span primitives epoch sequencer ticks (suc count) t c sealed.record_of.c_t seen
        × (span_seen ticks (suc count) t seen
            ≡ seen_after (span_seen ticks count t seen) sealed.entries)
  unfolding span_seen
  Span-snoc ticks zero t n c c' seen sealed at h found valid =
      let here : n ≡ t = omega (arith, at) in
      let found' : ticks t ≡ some sealed = ap ticks (sym here) ∙ found in
      let valid' : ValidTick primitives epoch sequencer t c seen sealed =
        subst₂ (λ m d. ValidTick primitives epoch sequencer m d seen sealed) here (sym h) valid in
      ((sealed, found', valid', refl), span_seen_step ticks zero t seen sealed found')
  Span-snoc ticks (suc count) t n c c' seen sealed at (s, found_s, valid_s, rest) found valid =
      let step = span_seen_step ticks count t seen s found_s in
      let (later, hashes) =
        Span-snoc ticks count (t + 1) n s.record_of.c_t c' (seen_after seen s.entries) sealed
          (omega arith) rest found
          (subst (λ hashes. ValidTick primitives epoch sequencer n c' hashes sealed) step valid) in
      (
        (s, found_s, valid_s, later),
        span_seen_step ticks (suc count) t seen s found_s
            ∙ (hashes ∙ ap (λ l. seen_after l sealed.entries) (sym step)),
      )

-- What the other operations do to the store, the sealed ticks stay.
pub ticks-tape_entries :
    (params : PosqParams) (tick : ℕ) (entries : List PendingEntry) (store : ChainStore)
    → (tape_entries params tick entries store).ticks ≡ store.ticks
unfolding tape_entries add_position
ticks-tape_entries params tick [] store = refl
ticks-tape_entries params tick (e ∷ entries) store = ticks-tape_entries params tick entries _

pub ticks-set_gaps :
    (keys : List (ℕ × ℕ)) (store : ChainStore) → (set_gaps keys store).ticks ≡ store.ticks
unfolding set_gaps set_outcome
ticks-set_gaps [] store = refl
ticks-set_gaps ((t, j) ∷ keys) store = ticks-set_gaps keys _
