-- ===== src/Sequencer/Store/Sorted.antt =====
-- The tape (crates/sequencer/src/store.rs) in the order of its keys, over the operations of the store.
use lighter_integration.Base.{
  ℕ, ◌≡◌, refl, sym, Bool, true, false, [], ◌∷◌, All, if◌then◌else◌, arith,
}
use mathlib.Core.Path.{subst}
use lighter_integration.Sequencer.Store.{
  Outcome, TapePosition, ChainStore, same_key, key_before, insert_position, add_position, new_store,
  resolve, update, set_outcome,
}
use lighter_integration.Sequencer.Store.Cutoff.{Tape}

-- The keys ascend, as in a `BTreeMap`.
abbrev pub IsSorted : Tape → Type 0
IsSorted [] = Unit
IsSorted ((k, q) ∷ tape) =
    All (λ (e : (ℕ × ℕ) × TapePosition). key_before k e.0 ≡ true) tape × IsSorted tape

key_before_trans :
    (a b c : ℕ × ℕ) → key_before a b ≡ true → key_before b c ≡ true → key_before a c ≡ true
key_before_trans a b c h h' = ground (arith, h, h')

key_after :
    (k key : ℕ × ℕ) → same_key k key ≡ false → key_before key k ≡ false → key_before k key ≡ true
key_after k key h h' = ground (arith, h, h')

same_key-before :
    (k key j : ℕ × ℕ) → same_key k key ≡ true → key_before k j ≡ true → key_before key j ≡ true
same_key-before k key j h h' = ground (arith, h, h')

pub before-same_key : (k j : ℕ × ℕ) → key_before k j ≡ true → same_key j k ≡ false
before-same_key k j h = ground (arith, h)

abbrev pub AllAfter : ℕ × ℕ → Tape → Type 0
AllAfter k tape = All (λ (e : (ℕ × ℕ) × TapePosition). key_before k e.0 ≡ true) tape

AllAfter-trans :
    (a b : ℕ × ℕ) (tape : Tape) → key_before a b ≡ true → AllAfter b tape → AllAfter a tape
AllAfter-trans a b [] h t = tt
AllAfter-trans a b ((k, q) ∷ tape) h (t, ts) =
    (key_before_trans a b k h t, AllAfter-trans a b tape h ts)

AllAfter-same :
    (k key : ℕ × ℕ) (tape : Tape) → same_key k key ≡ true → AllAfter k tape → AllAfter key tape
AllAfter-same k key [] h t = tt
AllAfter-same k key ((j, q) ∷ tape) h (t, ts) =
    (same_key-before k key j h t, AllAfter-same k key tape h ts)

AllAfter-insert_position :
    (k key : ℕ × ℕ) (p : TapePosition) (tape : Tape)
    → key_before k key ≡ true
    → AllAfter k tape
    → AllAfter k (insert_position key p tape)
unfolding insert_position
AllAfter-insert_position k key p [] h t = (h, tt)
AllAfter-insert_position k key p ((j, q) ∷ tape) h (t, ts) =
    split (same_key j key) (key_before key j) (AllAfter-insert_position k key p tape h ts)
  where
    split :
        (same before : Bool)
        → AllAfter k (insert_position key p tape)
        → AllAfter k (
            if same
            then (key, p) ∷ tape
            else if before
            then (key, p) ∷ (j, q) ∷ tape
            else (j, q) ∷ insert_position key p tape)
    split true before rest = (h, ts)
    split false true rest = (h, (t, ts))
    split false false rest = (t, rest)

IsSorted-insert_position :
    (key : ℕ × ℕ) (p : TapePosition) (tape : Tape)
    → IsSorted tape
    → IsSorted (insert_position key p tape)
unfolding insert_position
IsSorted-insert_position key p [] s = (tt, tt)
IsSorted-insert_position key p ((k, q) ∷ tape) (after, s) =
    split (same_key k key) (key_before key k) refl refl (IsSorted-insert_position key p tape s)
  where
    split :
        (same before : Bool)
        → same_key k key ≡ same
        → key_before key k ≡ before
        → IsSorted (insert_position key p tape)
        → IsSorted (
            if same
            then (key, p) ∷ tape
            else if before
            then (key, p) ∷ (k, q) ∷ tape
            else (k, q) ∷ insert_position key p tape)
    split true before e e' rest = (AllAfter-same k key tape e after, s)
    split false true e e' rest = ((e', AllAfter-trans key k tape e' after), (after, s))
    split false false e e' rest =
        (AllAfter-insert_position k key p tape (key_after k key e e') after, rest)

AllAfter-update :
    (k key : ℕ × ℕ) (new : Outcome) (tape : Tape)
    → AllAfter k tape
    → AllAfter k (update key new tape)
unfolding update
AllAfter-update k key new [] h = tt
AllAfter-update k key new ((j, q) ∷ tape) (h, hs) =
    split (same_key j key) (AllAfter-update k key new tape hs)
  where
    split :
        (same : Bool)
        → AllAfter k (update key new tape)
        → AllAfter k (
            if same then (j, resolve new q) ∷ update key new tape else (j, q) ∷ update key new tape)
    split true rest = (h, rest)
    split false rest = (h, rest)

IsSorted-update :
    (key : ℕ × ℕ) (new : Outcome) (tape : Tape) → IsSorted tape → IsSorted (update key new tape)
unfolding update
IsSorted-update key new [] s = tt
IsSorted-update key new ((k, q) ∷ tape) (after, s) =
    split (same_key k key) (AllAfter-update k key new tape after) (IsSorted-update key new tape s)
  where
    split :
        (same : Bool)
        → AllAfter k (update key new tape)
        → IsSorted (update key new tape)
        → IsSorted (
            if same then (k, resolve new q) ∷ update key new tape else (k, q) ∷ update key new tape)
    split true a rest = (a, rest)
    split false a rest = (a, rest)

-- The stores that the operations make of an empty one; what adds a tick or a segment leaves the tape.
pub data Built : ChainStore → Type 0 where
  empty : Built new_store
  added : {store : ChainStore} (p : TapePosition) → Built store → Built (add_position store p)
  resolved :
      {store : ChainStore} (tick pos : ℕ) (new : Outcome)
      → Built store
      → Built (set_outcome store tick pos new).0
  kept : {store store' : ChainStore} → store'.tape ≡ store.tape → Built store → Built store'

pub Built-IsSorted : {store : ChainStore} → Built store → IsSorted store.tape
unfolding add_position set_outcome
Built-IsSorted empty = tt
Built-IsSorted (added {store} p b) =
    IsSorted-insert_position (p.tick, p.pos) p store.tape (Built-IsSorted b)
Built-IsSorted (resolved {store} tick pos new b) =
    IsSorted-update (tick, pos) new store.tape (Built-IsSorted b)
Built-IsSorted (kept e b) = subst IsSorted (sym e) (Built-IsSorted b)
