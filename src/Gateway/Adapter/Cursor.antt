-- ===== src/Gateway/Adapter/Cursor.antt =====
-- The cursor of the adapter (demo/gateway/src/lighter_sim.rs) over a replay and at the end of a scan.
use lighter_integration.Base.{
  ℕ, ◌+◌, ◌%◌, ◌^◌, ◌<◌, ◌≤◌, ◌≡◌, refl, ap, ◌∙◌, true, false, List, [], ◌∷◌, ◌++◌, All, All-snoc,
  ltb, if◌then◌else◌, Bool-cases, inl, inr, wrap, arith,
}
use lighter_integration.Sequencer.Store.{ChainStore}
use lighter_integration.Sequencer.Node.Anchors.{keys_bound}
use lighter_integration.Sequencer.Node.Log.{get_below}
use lighter_integration.Gateway.Adapter.Advance.{Resolved}
use lighter_integration.Gateway.Adapter.Scans.{Reads, starts, reads, completes}

-- What `play_through` leaves of a queue, and all ticks that were completed.
unfoldable pub drop_to : ℕ → List Resolved → List Resolved
drop_to done [] = []
drop_to done (x ∷ queue) =
    let rest = drop_to done queue in if ltb done x.tick then x ∷ queue else rest

unfoldable pub queue_after : List ℕ → List Resolved → List Resolved
unfolding drop_to
queue_after [] queue = queue
queue_after (done ∷ ticks) queue = queue_after ticks (drop_to done queue)

-- The cursor after the ticks, and after the rest of the queue.
unfoldable pub cursor_ticks : List ℕ → ℕ × ℕ → ℕ × ℕ
cursor_ticks [] c = c
cursor_ticks (done ∷ ticks) c = cursor_ticks ticks (wrap (done + 1), 0)

unfoldable pub cursor_rest : List Resolved → ℕ × ℕ → ℕ × ℕ
cursor_rest [] c = c
cursor_rest (x ∷ queue) c = cursor_rest queue (x.tick, (x.pos + 1) % 2 ^ 32)

abbrev AtMost : ℕ → List Resolved → Type 0
AtMost t = All (λ (x : Resolved). x.tick ≤ t)

abbrev Below : ℕ → List ℕ → Type 0
Below t = All (λ (d : ℕ). d < t)

drop_to-snoc :
    (done : ℕ) (queue : List Resolved) (x : Resolved)
    → done < x.tick
    → drop_to done (queue ++ x ∷ []) ≡ drop_to done queue ++ x ∷ []
unfolding drop_to
drop_to-snoc done [] x h = let later : ltb done x.tick ≡ true = ground arith in rw later refl
drop_to-snoc done (y ∷ queue) x h = elim (Bool-cases (ltb done y.tick)) [
  | inl e ↦ rw e refl
  | inr e ↦ rw e (drop_to-snoc done queue x h)
]

queue_after-snoc :
    (ticks : List ℕ) (queue : List Resolved) (x : Resolved)
    → Below x.tick ticks
    → queue_after ticks (queue ++ x ∷ []) ≡ queue_after ticks queue ++ x ∷ []
unfolding queue_after
queue_after-snoc [] queue x h = refl
queue_after-snoc (done ∷ ticks) queue x (l, h) =
    ap (queue_after ticks) (drop_to-snoc done queue x l)
    ∙ queue_after-snoc ticks (drop_to done queue) x h

drop_to-AtMost :
    (t done : ℕ) (queue : List Resolved) → AtMost t queue → AtMost t (drop_to done queue)
unfolding drop_to
drop_to-AtMost t done [] h = tt
drop_to-AtMost t done (x ∷ queue) (l, h) = elim (Bool-cases (ltb done x.tick)) [
  | inl e ↦ rw e (l, h)
  | inr e ↦ rw e (drop_to-AtMost t done queue h)
]

queue_after-AtMost :
    (t : ℕ) (ticks : List ℕ) (queue : List Resolved)
    → AtMost t queue
    → AtMost t (queue_after ticks queue)
unfolding queue_after
queue_after-AtMost t [] queue h = h
queue_after-AtMost t (done ∷ ticks) queue h =
    queue_after-AtMost t ticks (drop_to done queue) (drop_to-AtMost t done queue h)

drop_to-all : (t : ℕ) (queue : List Resolved) → AtMost t queue → drop_to t queue ≡ []
unfolding drop_to
drop_to-all t [] h = refl
drop_to-all t (x ∷ queue) (l, h) =
    let earlier : ltb t x.tick ≡ false = ground arith in rw earlier (drop_to-all t queue h)

queue_after-append :
    (ticks : List ℕ) (t : ℕ) (queue : List Resolved)
    → queue_after (ticks ++ t ∷ []) queue ≡ drop_to t (queue_after ticks queue)
unfolding queue_after
queue_after-append [] t queue = refl
queue_after-append (done ∷ ticks) t queue = queue_after-append ticks t (drop_to done queue)

cursor_ticks-append :
    (ticks : List ℕ) (t : ℕ) (c : ℕ × ℕ) → cursor_ticks (ticks ++ t ∷ []) c ≡ (wrap (t + 1), 0)
unfolding cursor_ticks
cursor_ticks-append [] t c = refl
cursor_ticks-append (done ∷ ticks) t c = cursor_ticks-append ticks t _

cursor_rest-append :
    (queue : List Resolved) (x : Resolved) (c : ℕ × ℕ)
    → cursor_rest (queue ++ x ∷ []) c ≡ (x.tick, (x.pos + 1) % 2 ^ 32)
unfolding cursor_rest
cursor_rest-append [] x c = refl
cursor_rest-append (y ∷ queue) x c = cursor_rest-append queue x _

AtMost-weaken : (t u : ℕ) (queue : List Resolved) → t ≤ u → AtMost t queue → AtMost u queue
AtMost-weaken t u [] le h = tt
AtMost-weaken t u (x ∷ queue) le (l, h) = (omega arith, AtMost-weaken t u queue le h)

Below-weaken : (t u : ℕ) (ticks : List ℕ) → t ≤ u → Below t ticks → Below u ticks
Below-weaken t u [] le h = tt
Below-weaken t u (d ∷ ticks) le (l, h) = (omega arith, Below-weaken t u ticks le h)

-- Completed ticks are behind the cursor, positions are not ahead of it, and the replay ends at it.
pub record Lands (c : ℕ × ℕ) (batch : List Resolved) (completed : List ℕ) (t j : ℕ) : Type 0 where
  pub behind : Below t completed
  pub not_ahead : AtMost t batch
  pub lands : cursor_rest (queue_after completed batch) (cursor_ticks completed c) ≡ (t, j)

pub Reads-Lands :
    (store : ChainStore) (from_tick from_pos : ℕ) {batch : List Resolved} {completed : List ℕ}
    {t j : ℕ}
    → keys_bound store.ticks < 2 ^ 64
    → Reads store from_tick from_pos batch completed t j
    → Lands (from_tick, from_pos) batch completed t j
unfolding queue_after cursor_ticks cursor_rest
Reads-Lands store from_tick from_pos small starts = record {
  behind = tt;
  not_ahead = tt;
  lands = refl;
}
Reads-Lands store from_tick from_pos small
      (reads {batch} {completed} {t} {j} sealed p r at short found ready) =
    let l = Reads-Lands store from_tick from_pos small r in
    let x : Resolved = record { tick = t; pos = j; outcome = p.outcome } in
    record {
      behind = l.behind;
      not_ahead = All-snoc (λ (x : Resolved). x.tick ≤ t) batch x l.not_ahead (omega arith);
      lands =
          ap (λ q. cursor_rest q (cursor_ticks completed (from_tick, from_pos)))
            (queue_after-snoc completed batch x l.behind)
          ∙ cursor_rest-append (queue_after completed batch) x _;
    }
Reads-Lands store from_tick from_pos small
      (completes {batch} {completed} {t} {j} sealed r at long) =
    let l = Reads-Lands store from_tick from_pos small r in
    let below = get_below t store.ticks sealed at in
    let next : wrap (t + 1) ≡ t + 1 = omega (arith, below, small) in
    record {
      behind =
          All-snoc (λ (d : ℕ). d < wrap (t + 1)) completed t
            (Below-weaken t (wrap (t + 1)) completed (omega arith) l.behind) (omega arith);
      not_ahead = AtMost-weaken t (wrap (t + 1)) batch (omega arith) l.not_ahead;
      lands =
          ap (λ q. cursor_rest q (cursor_ticks (completed ++ t ∷ []) (from_tick, from_pos)))
            (queue_after-append completed t batch
              ∙ drop_to-all t (queue_after completed batch)
                  (queue_after-AtMost t completed batch l.not_ahead))
          ∙ cursor_ticks-append completed t (from_tick, from_pos);
    }
