-- ===== src/Sequencer/Admission/Placed.antt =====
-- The places and the digests of the entries in the buffers of crates/sequencer/src/admission.rs.
use lighter_integration.Base.{
  ℕ, ◌+◌, ◌%◌, ◌^◌, ◌≡◌, refl, Bytes, Hash32, List, [], ◌∷◌, ◌++◌, length, Bool, arith,
}
use mathlib.Core.Path.{subst}
use lighter_integration.Sequencer.Identity.{Primitives}
use lighter_integration.Sequencer.Envelope.{Envelope}
use lighter_integration.Sequencer.Records.{digest_step}
use lighter_integration.Sequencer.Admission.{
  PendingEntry, TickBuffer, buffer_or_default, default_buffer, Admission, get_tick,
}
use lighter_integration.Sequencer.Admission.Buffers.{Buffers, Buffers-put_tick, Buffers-get_tick}
use lighter_integration.Sequencer.Admission.Submit.{
  Submitted, push_entry, receipt_of, reserve, submit,
}
use lighter_integration.Sequencer.Admission.Outcomes.{Answered, refused, crashed, full, reserved}
use lighter_integration.Sequencer.Admission.Answers.{submit-Answered}

length-snoc {ℓ} : {A : Type ℓ} (xs : List A) (x : A) → length (xs ++ x ∷ []) ≡ length xs + 1
length-snoc [] x = omega arith
length-snoc (y ∷ xs) x = omega (arith, length-snoc xs x)

module _ (primitives : Primitives) where
  -- An entry of tick `t` at index `idx`, and its receipt.
  pub record PlacedAt (t idx : ℕ) (e : PendingEntry) : Type 0 where
    pub at_tick : e.tick ≡ t
    pub at_index : e.pos ≡ idx % 2 ^ 32
    pub same_pos : e.receipt.pos ≡ e.pos
    pub same_hash : e.receipt.h ≡ e.h
    pub digest :
        e.receipt.d ≡ digest_step primitives e.receipt.d_prev t e.pos e.h e.bucket e.ticket_id

  abbrev pub PlacedFrom : ℕ → ℕ → List PendingEntry → Type 0
  PlacedFrom t idx [] = Unit
  PlacedFrom t idx (e ∷ entries) = PlacedAt t idx e × PlacedFrom t (idx + 1) entries

  -- The entries stand at consecutive positions, and the next one is known.
  pub record PlacedBuffer (t : ℕ) (b : TickBuffer) : Type 0 where
    pub placed : PlacedFrom t 0 b.entries
    pub next : b.next_pos ≡ length b.entries % 2 ^ 32

  abbrev pub PlacedTicks : List (ℕ × TickBuffer) → Type 0
  PlacedTicks = Buffers PlacedBuffer

  PlacedFrom-append :
      (t idx n : ℕ) (entries : List PendingEntry) (e : PendingEntry)
      → PlacedFrom t idx entries
      → n ≡ idx + length entries
      → PlacedAt t n e
      → PlacedFrom t idx (entries ++ e ∷ [])
  PlacedFrom-append t idx n [] e h same p =
      let here : n ≡ idx = omega (arith, same) in (subst (λ (m : ℕ). PlacedAt t m e) here p, tt)
  PlacedFrom-append t idx n (x ∷ entries) e (hx, h) same p =
      (hx, PlacedFrom-append t (idx + 1) n entries e h (omega (arith, same)) p)

  PlacedBuffer-push_entry :
      (st : Admission) (t : ℕ) (b : TickBuffer) (h : Hash32) (env : Envelope) (bytes : Bytes)
      → PlacedBuffer t b
      → PlacedBuffer t (push_entry primitives b (receipt_of primitives st t b h env) h env bytes)
  unfolding push_entry receipt_of
  PlacedBuffer-push_entry st t b h env bytes p = record {
    placed = PlacedFrom-append t 0 (length b.entries) b.entries _ p.placed (omega arith) (record {
      at_tick = refl;
      at_index = p.next;
      same_pos = refl;
      same_hash = refl;
      digest = refl;
    });
    next = rw (length-snoc b.entries _) (omega (arith, p.next));
  }

  pub default_buffer-Placed : (t : ℕ) → PlacedBuffer t default_buffer
  default_buffer-Placed t = record { placed = tt; next = refl }

  pub PlacedTicks-submit :
      (st : Admission) (bytes : Bytes) (stored : Bool)
      → PlacedTicks st.ticks
      → PlacedTicks (submit primitives st bytes stored).0.ticks
  unfolding reserve
  PlacedTicks-submit st bytes stored p =
      from (submit primitives st bytes stored) (submit-Answered primitives st bytes stored)
    where
      from :
          (result : Submitted)
          → Answered primitives st bytes stored result
          → PlacedTicks result.0.ticks
      from _ (refused h bucket window reason put hh why) = p
      from _ (crashed why) = p
      from _ (full h env hh d ad f) = p
      from _ (reserved h env t hh d ad b room low high before) =
          let buffer = buffer_or_default (get_tick t st.ticks) in
          Buffers-put_tick PlacedBuffer t _ st.ticks
            (PlacedBuffer-push_entry st t buffer h env bytes
              (Buffers-get_tick PlacedBuffer t st.ticks (default_buffer-Placed t) p))
            p
