-- ===== src/Sequencer/Admission.antt =====
-- crates/sequencer/src/admission.rs: the state of admission, and the operations other than `submit`
-- (Admission/Submit). A hash map of counts is a function that is 0 where no key is; a `BTreeMap` of
-- buffers is a list of ticks with their buffers in ascending order; a hash set is a list.
pub mod Submit
pub mod Causes
pub mod Outcomes
pub mod Answers
pub mod Promises
pub mod Signed
pub mod Buffers
pub mod Capacity
pub mod Runs
pub mod Placed
pub mod Occurs
pub mod Distinct
pub mod Faucet
use lighter_integration.Base.{
  ℕ, ◌+◌, Bool, true, false, ◌&&◌, ◌||◌, not, Bytes, Hash32, bytes_eq, List, [], ◌∷◌, ◌++◌, Option,
  none, some, ltb, leb, ◌==◌, if◌then◌else◌, replicate, wrap,
}
use lighter_integration.Sequencer.Params.{PosqParams}
use lighter_integration.Sequencer.Identity.{Primitives, Address}
use lighter_integration.Sequencer.Envelope.{Bucket, Window, Envelope, end_inclusive}
use lighter_integration.Sequencer.Records.{Receipt, log_genesis}

pub record PendingEntry : Type 0 where
  pub tick : ℕ
  pub pos : ℕ
  pub h : Hash32
  pub bucket : Bucket
  pub delay_class : ℕ
  pub ticket_id : Bytes
  pub envelope : Envelope
  pub envelope_bytes : Bytes
  pub receipt : Receipt

pub record TickBuffer : Type 0 where
  pub next_pos : ℕ
  pub d_last : Option Hash32
  pub bucket_counts : ℕ → ℕ
  pub entries : List PendingEntry

-- `TickBuffer::default()`
abbrev pub default_buffer : TickBuffer
default_buffer = record { next_pos = 0; d_last = none; bucket_counts = λ _. 0; entries = [] }

-- The signing key stands for the identity.
pub record Admission : Type 0 where
  pub params : PosqParams
  pub identity : Bytes
  pub ticket_issuer : Address
  pub open_tick : ℕ
  pub x_prev_hash : Hash32
  pub c_prev : Hash32
  pub ticks : List (ℕ × TickBuffer)
  pub consumed_tickets : List Bytes
  pub seen_h : List Hash32
  pub fence_until : Option ℕ

-- `Admission::new`
unfoldable pub new_admission : Primitives → PosqParams → Bytes → Address → Admission
unfolding log_genesis
new_admission primitives params identity ticket_issuer = record {
  params = params;
  identity = identity;
  ticket_issuer = ticket_issuer;
  open_tick = 1;
  x_prev_hash = replicate 32 0;
  c_prev = log_genesis primitives params.epoch;
  ticks = [];
  consumed_tickets = [];
  seen_h = [];
  fence_until = none;
}

-- `set.contains(key)`
unfoldable pub member : Bytes → List Bytes → Bool
member key [] = false
member key (k ∷ keys) = bytes_eq k key || member key keys

-- `set.remove(key)`
unfoldable pub remove_key : Bytes → List Bytes → List Bytes
remove_key key [] = []
remove_key key (k ∷ keys) =
    let rest = remove_key key keys in if bytes_eq k key then rest else k ∷ rest

-- `self.ticks.get(t)`
unfoldable pub get_tick : ℕ → List (ℕ × TickBuffer) → Option TickBuffer
get_tick t [] = none
get_tick t ((k, b) ∷ ticks) = if k == t then some b else get_tick t ticks

-- `*self.ticks.entry(t).or_default() = buffer`, in ascending order
unfoldable pub put_tick : ℕ → TickBuffer → List (ℕ × TickBuffer) → List (ℕ × TickBuffer)
put_tick t buffer [] = (t, buffer) ∷ []
put_tick t buffer ((k, b) ∷ ticks) =
    let rest = put_tick t buffer ticks in
    if k == t
    then (t, buffer) ∷ ticks
    else if ltb t k
    then (t, buffer) ∷ (k, b) ∷ ticks
    else (k, b) ∷ rest

-- `self.ticks.remove(&t)`
unfoldable pub drop_tick : ℕ → List (ℕ × TickBuffer) → List (ℕ × TickBuffer)
drop_tick t [] = []
drop_tick t ((k, b) ∷ ticks) =
    let rest = drop_tick t ticks in if k == t then rest else (k, b) ∷ rest

-- `unwrap_or_default()`
abbrev pub buffer_or_default : Option TickBuffer → TickBuffer
buffer_or_default none = default_buffer
buffer_or_default (some b) = b

-- `Admission::take_tick`
unfoldable pub take_tick : Admission → ℕ → Admission × List PendingEntry
unfolding get_tick drop_tick
take_tick st t =
    (record st { ticks = drop_tick t st.ticks }, (buffer_or_default (get_tick t st.ticks)).entries)

-- `Admission::advance_open`
unfoldable pub advance_open : Admission → ℕ → Hash32 → Hash32 → Admission
advance_open st t x_hash c_t = record st {
  open_tick = wrap (t + 1);
  x_prev_hash = x_hash;
  c_prev = c_t;
}

-- `Admission::seal_tick`
unfoldable pub seal_tick : Admission → ℕ → Hash32 → Hash32 → Admission × List PendingEntry
unfolding take_tick advance_open
seal_tick st t x_hash c_t =
    let (taken, entries) = take_tick st t in (advance_open taken t x_hash c_t, entries)

-- `overlaps` of `fence`
unfoldable pub overlaps : ℕ → PendingEntry → Bool
unfolding end_inclusive
overlaps fault_tick e =
    leb e.receipt.window.start fault_tick && leb fault_tick (end_inclusive e.receipt.window)

-- The entries that `retain` keeps, and those that it releases, in order.
unfoldable pub kept : ℕ → List PendingEntry → List PendingEntry
unfolding overlaps
kept fault_tick [] = []
kept fault_tick (e ∷ entries) =
    let rest = kept fault_tick entries in if overlaps fault_tick e then rest else e ∷ rest

unfoldable pub released : ℕ → List PendingEntry → List PendingEntry
unfolding overlaps
released fault_tick [] = []
released fault_tick (e ∷ entries) =
    let rest = released fault_tick entries in if overlaps fault_tick e then e ∷ rest else rest

-- `for buffer in self.ticks.values_mut()`
unfoldable pub kept_ticks : ℕ → List (ℕ × TickBuffer) → List (ℕ × TickBuffer)
unfolding kept
kept_ticks fault_tick [] = []
kept_ticks fault_tick ((k, b) ∷ ticks) =
    (k, record b { entries = kept fault_tick b.entries }) ∷ kept_ticks fault_tick ticks

unfoldable pub released_ticks : ℕ → List (ℕ × TickBuffer) → List PendingEntry
unfolding released
released_ticks fault_tick [] = []
released_ticks fault_tick ((k, b) ∷ ticks) =
    released fault_tick b.entries ++ released_ticks fault_tick ticks

-- The sets without the tickets and the hashes of the released entries.
unfoldable pub unconsume : List PendingEntry → List Bytes → List Bytes
unfolding remove_key
unconsume [] consumed = consumed
unconsume (e ∷ entries) consumed = unconsume entries (remove_key e.ticket_id consumed)

unfoldable pub unsee : List PendingEntry → List Hash32 → List Hash32
unfolding remove_key
unsee [] seen = seen
unsee (e ∷ entries) seen = unsee entries (remove_key e.h seen)

unfoldable pub hashes : List PendingEntry → List Hash32
hashes [] = []
hashes (e ∷ entries) = e.h ∷ hashes entries

-- `fault_tick.max(self.fence_until.unwrap_or(0))`
abbrev pub later : ℕ → Option ℕ → ℕ
later fault_tick none = fault_tick
later fault_tick (some until) = if ltb fault_tick until then until else fault_tick

-- `Admission::fence`
unfoldable pub fence : Admission → ℕ → Admission × List Hash32
unfolding kept_ticks released_ticks unconsume unsee hashes
fence st fault_tick =
    let out = released_ticks fault_tick st.ticks in
    (
      record st {
        fence_until = some (later fault_tick st.fence_until);
        ticks = kept_ticks fault_tick st.ticks;
        consumed_tickets = unconsume out st.consumed_tickets;
        seen_h = unsee out st.seen_h;
      },
      hashes out,
    )

-- `Admission::lift_fence`
unfoldable pub lift_fence : Admission → Admission
lift_fence st = record st { fence_until = none }

-- `Admission::ticket_consumed`
unfoldable pub is_consumed : Admission → Bytes → Bool
unfolding member
is_consumed st id = member id st.consumed_tickets
