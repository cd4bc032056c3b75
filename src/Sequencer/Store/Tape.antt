-- ===== src/Sequencer/Store/Tape.antt =====
-- The outcomes on the tape (crates/sequencer/src/store.rs, and the cutoff in
-- crates/sequencer/src/node.rs).
use lighter_integration.Base.{
  ℕ, ◌≡◌, ◌≢◌, refl, ap, Bool, true, false, List, [], ◌∷◌, some, if◌then◌else◌,
}
use lighter_integration.Sequencer.Store.{
  Outcome, pending, opened, gap, TapePosition, ChainStore, same_key, get_position, resolve, update,
  set_outcome,
}

-- The outcome is not pending.
abbrev pub Resolved : Outcome → Type 0
Resolved o = (m : ℕ) → o ≢ pending m

resolve_final : (new : Outcome) (p : TapePosition) → Resolved p.outcome → resolve new p ≡ p
unfolding resolve
resolve_final new p h = split p.outcome h
  where
    split :
        (o : Outcome)
        → Resolved o
        → elim o [ pending m ↦ record p { outcome = new } | opened i ↦ p | gap r ↦ p ] ≡ p
    split (pending m) h = absurd (h m refl)
    split (opened i) h = refl
    split (gap r) h = refl

update_final :
    (key k : ℕ × ℕ) (new : Outcome) (tape : List ((ℕ × ℕ) × TapePosition)) (p : TapePosition)
    → Resolved p.outcome
    → get_position k tape ≡ some p
    → get_position k (update key new tape) ≡ some p
unfolding get_position update
update_final key k new [] p h e = e
update_final key k new ((j, q) ∷ tape) p h e =
    touch (same_key j key) (λ e. update_final key k new tape p h e)
  where
    look :
        (found : Bool) (q' : TapePosition)
        → (q ≡ p → q' ≡ p)
        → (get_position k tape ≡ some p → get_position k (update key new tape) ≡ some p)
        → (if found then some q else get_position k tape) ≡ some p
        → (if found then some q' else get_position k (update key new tape)) ≡ some p
    look true q' here rest e = ap (λ x. some x) (here (cc e))
    look false q' here rest e = rest e

    touch :
        (touched : Bool)
        → (get_position k tape ≡ some p → get_position k (update key new tape) ≡ some p)
        → get_position k (
            if touched
            then (j, resolve new q) ∷ update key new tape
            else (j, q) ∷ update key new tape)
          ≡ some p
    touch true rest = look (same_key j k) (resolve new q) (λ s. rw s (resolve_final new p h)) rest e
    touch false rest = look (same_key j k) q (λ s. s) rest e

-- The stores that `set_outcome` reaches, whatever its arguments.
pub data Sets (start : ChainStore) : ChainStore → Type 0 where
  here : Sets start start
  sets :
      {store : ChainStore} (tick pos : ℕ) (new : Outcome)
      → Sets start store
      → Sets start (set_outcome store tick pos new).0

-- An opened intent or a gap is final: however often set_outcome runs afterwards, on this position or
-- others, the position keeps it.
pub Resolved-is_final :
    {start store : ChainStore} (key : ℕ × ℕ) (p : TapePosition)
    → Resolved p.outcome
    → get_position key start.tape ≡ some p
    → Sets start store
    → get_position key store.tape ≡ some p
unfolding set_outcome
Resolved-is_final key p h e here = e
Resolved-is_final key p h e (sets {store} tick pos new s) =
    update_final (tick, pos) key new store.tape p h (Resolved-is_final key p h e s)
