-- ===== src/Sequencer/Admission/Occurs.antt =====
-- How often a hash occurs among the sealed and the buffered entries of an admission
-- (crates/sequencer/src/admission.rs).
use lighter_integration.Base.{
  ℕ, ◌+◌, ◌≤◌, ◌≡◌, refl, Bool, true, false, Hash32, bytes_eq, List, [], ◌∷◌, ◌++◌, some, none, ltb,
  ◌==◌, if◌then◌else◌, arith,
}
use lighter_integration.Sequencer.Admission.{
  PendingEntry, TickBuffer, buffer_or_default, member, get_tick, put_tick, drop_tick,
}
use lighter_integration.Sequencer.Admission.Buffers.{Ascending, get_tick-Above}

-- 1 where the hashes are equal
abbrev pub same_hash : Hash32 → Hash32 → ℕ
same_hash h k = if bytes_eq k h then 1 else 0

-- How often a hash occurs.
unfoldable pub occurs : Hash32 → List Hash32 → ℕ
occurs h [] = 0
occurs h (k ∷ hashes) = same_hash h k + occurs h hashes

unfoldable pub occurs_entries : Hash32 → List PendingEntry → ℕ
occurs_entries h [] = 0
occurs_entries h (e ∷ entries) = same_hash h e.h + occurs_entries h entries

unfoldable pub occurs_ticks : Hash32 → List (ℕ × TickBuffer) → ℕ
unfolding occurs_entries
occurs_ticks h [] = 0
occurs_ticks h ((k, b) ∷ ticks) = occurs_entries h b.entries + occurs_ticks h ticks

pub occurs_entries-append :
    (h : Hash32) (entries : List PendingEntry) (e : PendingEntry)
    → occurs_entries h (entries ++ e ∷ []) ≡ occurs_entries h entries + same_hash h e.h
unfolding occurs_entries
occurs_entries-append h [] e = omega arith
occurs_entries-append h (x ∷ entries) e = omega (arith, occurs_entries-append h entries e)

-- A buffer in place of that of the tick adds at most its own entries.
pub occurs_ticks-put_tick :
    (h : Hash32) (t : ℕ) (b : TickBuffer) (ticks : List (ℕ × TickBuffer))
    → Ascending ticks
    → occurs_ticks h (put_tick t b ticks)
        + occurs_entries h (buffer_or_default (get_tick t ticks)).entries
      ≤ occurs_ticks h ticks + occurs_entries h b.entries
unfolding occurs_ticks put_tick get_tick occurs_entries
occurs_ticks-put_tick h t b [] sorted = omega arith
occurs_ticks-put_tick h t b ((k, c) ∷ ticks) (above, sorted) =
    split (k == t) (ltb t k) refl (occurs_ticks-put_tick h t b ticks sorted)
  where
    split :
        (same before : Bool)
        → ltb t k ≡ before
        → occurs_ticks h (put_tick t b ticks)
            + occurs_entries h (buffer_or_default (get_tick t ticks)).entries
          ≤ occurs_ticks h ticks + occurs_entries h b.entries
        → occurs_ticks h (
              if same
              then (t, b) ∷ ticks
              else if before
              then (t, b) ∷ (k, c) ∷ ticks
              else (k, c) ∷ put_tick t b ticks)
            + occurs_entries h
                (buffer_or_default (if same then some c else get_tick t ticks)).entries
          ≤ occurs_entries h c.entries + occurs_ticks h ticks + occurs_entries h b.entries
    split true before e rest = omega arith
    split false true e rest =
        let absent : get_tick t ticks ≡ none = get_tick-Above t k ticks (ground arith) above in
        rw absent (omega arith)
    split false false e rest = omega arith

pub occurs_ticks-drop_tick :
    (h : Hash32) (t : ℕ) (ticks : List (ℕ × TickBuffer))
    → occurs_ticks h (drop_tick t ticks)
        + occurs_entries h (buffer_or_default (get_tick t ticks)).entries
      ≤ occurs_ticks h ticks
unfolding occurs_ticks drop_tick get_tick occurs_entries
occurs_ticks-drop_tick h t [] = omega arith
occurs_ticks-drop_tick h t ((k, c) ∷ ticks) = split (k == t) (occurs_ticks-drop_tick h t ticks)
  where
    split :
        (same : Bool)
        → occurs_ticks h (drop_tick t ticks)
            + occurs_entries h (buffer_or_default (get_tick t ticks)).entries
          ≤ occurs_ticks h ticks
        → occurs_ticks h (if same then drop_tick t ticks else (k, c) ∷ drop_tick t ticks)
            + occurs_entries h
                (buffer_or_default (if same then some c else get_tick t ticks)).entries
          ≤ occurs_entries h c.entries + occurs_ticks h ticks
    split true rest = omega arith
    split false rest = omega arith

-- A hash that was not seen is not in a list of seen hashes.
pub member-occurs :
    (h : Hash32) (hashes : List Hash32) → occurs h hashes ≡ 0 → member h hashes ≡ false
unfolding member occurs
member-occurs h [] e = refl
member-occurs h (k ∷ hashes) e = ground (arith, member-occurs h hashes)
