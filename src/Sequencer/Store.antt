-- ===== src/Sequencer/Store.antt =====
-- crates/sequencer/src/store.rs: the sealed ticks and the tape. A `BTreeMap` is a list of keys and
-- values in ascending order; whether a file was written is an argument.
pub mod Tape
pub mod Cutoff
pub mod Sorted
pub mod Exact
use lighter_integration.Base.{
  ℕ, ◌+◌, Bool, true, false, ◌&&◌, ◌||◌, Hash32, List, [], ◌∷◌, Option, none, some, ltb, leb, ◌==◌,
  if◌then◌else◌, wrap,
}
use lighter_integration.Sequencer.Envelope.{Bucket, Intent}
use lighter_integration.Sequencer.Records.{BatchEntry, Receipt, TickRecord, SegmentSeal}

pub data GapReason : Type 0 where
  undecryptable invalid_intent unopened : GapReason

pub data Outcome : Type 0 where
  pending : ℕ → Outcome
  opened : Intent → Outcome
  gap : GapReason → Outcome

pub record TapePosition : Type 0 where
  pub tick : ℕ
  pub pos : ℕ
  pub h : Hash32
  pub bucket : Bucket
  pub delay_class : ℕ
  pub outcome : Outcome

pub record SealedTick : Type 0 where
  pub record_of : TickRecord
  pub entries : List BatchEntry
  pub receipts : List Receipt

pub record ChainStore : Type 0 where
  pub ticks : List (ℕ × SealedTick)
  pub segments : List (ℕ × SegmentSeal)
  pub tape : List ((ℕ × ℕ) × TapePosition)

-- `ChainStore::new`
abbrev pub new_store : ChainStore
new_store = record { ticks = []; segments = []; tape = [] }

-- `map.insert(k, v)` for a number as key
unfoldable pub insert {ℓ} : {A : Type ℓ} → ℕ → A → List (ℕ × A) → List (ℕ × A)
insert k v [] = (k, v) ∷ []
insert k v ((j, w) ∷ map) =
    let rest = insert k v map in
    if j == k then (k, v) ∷ map else if ltb k j then (k, v) ∷ (j, w) ∷ map else (j, w) ∷ rest

-- keys `(tick, pos)`, in lexicographic order
abbrev pub same_key : ℕ × ℕ → ℕ × ℕ → Bool
same_key (t, p) (s, q) = t == s && p == q

abbrev pub key_before : ℕ × ℕ → ℕ × ℕ → Bool
key_before (t, p) (s, q) = ltb t s || t == s && ltb p q

-- `self.tape.insert(key, p)`
unfoldable pub insert_position :
    ℕ × ℕ → TapePosition → List ((ℕ × ℕ) × TapePosition) → List ((ℕ × ℕ) × TapePosition)
insert_position key p [] = (key, p) ∷ []
insert_position key p ((k, q) ∷ tape) =
    let rest = insert_position key p tape in
    if same_key k key
    then (key, p) ∷ tape
    else if key_before key k
    then (key, p) ∷ (k, q) ∷ tape
    else (k, q) ∷ rest

-- `self.tape.get(key)`
unfoldable pub get_position : ℕ × ℕ → List ((ℕ × ℕ) × TapePosition) → Option TapePosition
get_position key [] = none
get_position key ((k, q) ∷ tape) = if same_key k key then some q else get_position key tape

-- `ChainStore::insert_tick`; `none` is the error of the file system.
unfoldable pub insert_tick : ChainStore → SealedTick → Bool → Option ChainStore
unfolding insert
insert_tick store sealed written =
    if written
    then some (record store { ticks = insert sealed.record_of.tick sealed store.ticks })
    else none

-- `ChainStore::insert_segment`
unfoldable pub insert_segment : ChainStore → SegmentSeal → Bool → Option ChainStore
unfolding insert
insert_segment store seal written =
    if written
    then some (record store { segments = insert seal.segment seal store.segments })
    else none

-- `ChainStore::add_position`
unfoldable pub add_position : ChainStore → TapePosition → ChainStore
unfolding insert_position
add_position store p = record store { tape = insert_position (p.tick, p.pos) p store.tape }

-- The assignment to `entry.outcome`, if it is pending.
unfoldable pub resolve : Outcome → TapePosition → TapePosition
resolve new p = elim p.outcome [ pending m ↦ record p { outcome = new } | opened i ↦ p | gap r ↦ p ]

unfoldable pub update :
    ℕ × ℕ → Outcome → List ((ℕ × ℕ) × TapePosition) → List ((ℕ × ℕ) × TapePosition)
unfolding resolve
update key new [] = []
update key new ((k, q) ∷ tape) =
    let rest = update key new tape in
    if same_key k key then (k, resolve new q) ∷ rest else (k, q) ∷ rest

-- `ChainStore::set_outcome`: the store, and the entry if there is one.
unfoldable pub set_outcome : ChainStore → ℕ → ℕ → Outcome → ChainStore × Option TapePosition
unfolding update get_position
set_outcome store tick pos new =
    let tape = update (tick, pos) new store.tape in
    (record store { tape = tape }, get_position (tick, pos) tape)

-- The guard of the `match` in `overdue_positions`.
unfoldable pub is_overdue : ℕ → ℕ → Outcome → Bool
is_overdue current_tick grace_ticks (pending m) = leb (wrap (m + grace_ticks)) current_tick
is_overdue current_tick grace_ticks (opened i) = false
is_overdue current_tick grace_ticks (gap r) = false

unfoldable pub overdue_in : ℕ → ℕ → List ((ℕ × ℕ) × TapePosition) → List (ℕ × ℕ)
unfolding is_overdue
overdue_in current_tick grace_ticks [] = []
overdue_in current_tick grace_ticks ((k, q) ∷ tape) =
    let rest = overdue_in current_tick grace_ticks tape in
    if is_overdue current_tick grace_ticks q.outcome then k ∷ rest else rest

-- `ChainStore::overdue_positions`
unfoldable pub overdue_positions : ChainStore → ℕ → ℕ → List (ℕ × ℕ)
unfolding overdue_in
overdue_positions store current_tick grace_ticks = overdue_in current_tick grace_ticks store.tape

-- `self.ticks.keys().next_back()`
unfoldable pub last_key {ℓ} : {A : Type ℓ} → List (ℕ × A) → Option ℕ
last_key [] = none
last_key ((k, v) ∷ []) = some k
last_key ((k, v) ∷ kw ∷ map) = last_key (kw ∷ map)

-- `ChainStore::latest_tick`
unfoldable pub latest_tick : ChainStore → Option ℕ
unfolding last_key
latest_tick store = last_key store.ticks

-- The execution cutoff of the node (crates/sequencer/src/node.rs): `set_outcome` for each key.
unfoldable pub set_gaps : List (ℕ × ℕ) → ChainStore → ChainStore
unfolding set_outcome
set_gaps [] store = store
set_gaps ((t, j) ∷ keys) store = set_gaps keys (set_outcome store t j (gap unopened)).0

unfoldable pub cut_off : ChainStore → ℕ → ℕ → ChainStore
unfolding overdue_positions set_gaps
cut_off store tick grace_ticks = set_gaps (overdue_positions store tick grace_ticks) store
