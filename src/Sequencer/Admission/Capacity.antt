-- ===== src/Sequencer/Admission/Capacity.antt =====
-- The capacity rule of crates/sequencer/src/admission.rs, over every run of its operations.
use lighter_integration.Base.{
  ℕ, ◌+◌, ◌%◌, ◌^◌, ◌<◌, ◌≤◌, ◌≡◌, Bool, true, false, Bytes, Hash32, List, [], ◌∷◌, ◌++◌, ◌==◌,
  if◌then◌else◌, ==_iff, Bool-cases, inl, inr, arith,
}
use lighter_integration.Sequencer.Identity.{Primitives}
use lighter_integration.Sequencer.Envelope.{bucket_code, Envelope}
use lighter_integration.Sequencer.Records.{Receipt}
use lighter_integration.Sequencer.Admission.{
  PendingEntry, TickBuffer, buffer_or_default, get_tick, put_tick, drop_tick, overlaps, kept,
  kept_ticks,
}
use lighter_integration.Sequencer.Admission.Buffers.{
  Buffers, Buffers-put_tick, Buffers-drop_tick, Buffers-get_tick,
}
use lighter_integration.Sequencer.Admission.Submit.{push_entry}

-- The entries of a bucket.
unfoldable pub entries_in : ℕ → List PendingEntry → ℕ
entries_in code [] = 0
entries_in code (e ∷ entries) =
    (if bucket_code e.bucket == code then 1 else 0) + entries_in code entries

-- The counter of a bucket covers its entries, and stays within the capacity.
abbrev pub WithinBuffer : ℕ → TickBuffer → Type 0
WithinBuffer cap b =
    (code : ℕ) → (entries_in code b.entries ≤ b.bucket_counts code) × (b.bucket_counts code ≤ cap)

abbrev pub WithinTicks : ℕ → List (ℕ × TickBuffer) → Type 0
WithinTicks cap = Buffers (λ t. WithinBuffer cap)

pub WithinTicks-put_tick :
    (cap t : ℕ) (b : TickBuffer) (ticks : List (ℕ × TickBuffer))
    → WithinBuffer cap b
    → WithinTicks cap ticks
    → WithinTicks cap (put_tick t b ticks)
WithinTicks-put_tick cap = Buffers-put_tick (λ t. WithinBuffer cap)

pub WithinTicks-drop_tick :
    (cap t : ℕ) (ticks : List (ℕ × TickBuffer))
    → WithinTicks cap ticks
    → WithinTicks cap (drop_tick t ticks)
WithinTicks-drop_tick cap = Buffers-drop_tick (λ t. WithinBuffer cap)

pub WithinBuffer-get_tick :
    (cap t : ℕ) (ticks : List (ℕ × TickBuffer))
    → WithinTicks cap ticks
    → WithinBuffer cap (buffer_or_default (get_tick t ticks))
unfolding entries_in
WithinBuffer-get_tick cap t ticks h =
    Buffers-get_tick (λ t. WithinBuffer cap) t ticks (λ code. (omega arith, omega arith)) h

entries_in-kept :
    (fault_tick code : ℕ) (entries : List PendingEntry)
    → entries_in code (kept fault_tick entries) ≤ entries_in code entries
unfolding kept entries_in
entries_in-kept fault_tick code [] = omega arith
entries_in-kept fault_tick code (e ∷ entries) =
    split (overlaps fault_tick e) (entries_in-kept fault_tick code entries)
  where
    split :
        (out : Bool)
        → entries_in code (kept fault_tick entries) ≤ entries_in code entries
        → entries_in code (if out then kept fault_tick entries else e ∷ kept fault_tick entries)
          ≤ (if bucket_code e.bucket == code then 1 else 0) + entries_in code entries
    split true rest = omega arith
    split false rest = omega arith

pub WithinTicks-kept_ticks :
    (cap fault_tick : ℕ) (ticks : List (ℕ × TickBuffer))
    → WithinTicks cap ticks
    → WithinTicks cap (kept_ticks fault_tick ticks)
unfolding kept_ticks
WithinTicks-kept_ticks cap fault_tick [] h = tt
WithinTicks-kept_ticks cap fault_tick ((k, c) ∷ ticks) (hc, h) = (
  λ code. (omega (arith, (hc code).0, entries_in-kept fault_tick code c.entries), (hc code).1),
  WithinTicks-kept_ticks cap fault_tick ticks h,
)

entries_in-append :
    (code : ℕ) (entries : List PendingEntry) (e : PendingEntry)
    → entries_in code (entries ++ e ∷ [])
      ≡ entries_in code entries + (if bucket_code e.bucket == code then 1 else 0)
unfolding entries_in
entries_in-append code [] e = omega arith
entries_in-append code (x ∷ entries) e = omega (arith, entries_in-append code entries e)

count_step :
    (n c cap code bucket : ℕ)
    → cap < 2 ^ 32
    → n ≤ c
    → c ≤ cap
    → (code ≡ bucket → c < cap)
    → (n + (if bucket == code then 1 else 0) ≤ (if code == bucket then (c + 1) % 2 ^ 32 else c))
      × ((if code == bucket then (c + 1) % 2 ^ 32 else c) ≤ cap)
count_step n c cap code bucket small le top room = elim (Bool-cases (code == bucket)) [
  | inl e ↦
      let same : code ≡ bucket = (==_iff code bucket).0 e in
      let below : c < cap = room same in ground arith
  | inr e ↦ ground arith
]

-- An entry goes into a buffer with room.
pub WithinBuffer-push_entry :
    (primitives : Primitives) (cap : ℕ) (b : TickBuffer) (r : Receipt) (h : Hash32) (env : Envelope)
    (bytes : Bytes)
    → cap < 2 ^ 32
    → WithinBuffer cap b
    → b.bucket_counts (bucket_code env.bucket) < cap
    → WithinBuffer cap (push_entry primitives b r h env bytes)
unfolding push_entry
WithinBuffer-push_entry primitives cap b r h env bytes small hb room = λ code.
    rw (entries_in-append code b.entries) (
      count_step (entries_in code b.entries) (b.bucket_counts code) cap code
        (bucket_code env.bucket) small (hb code).0 (hb code).1 (λ e. rw e room))
