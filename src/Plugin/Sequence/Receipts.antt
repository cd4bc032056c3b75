-- ===== src/Plugin/Sequence/Receipts.antt =====
-- The receipt loop of `verify_sequence_transition` (crates/continuum-lighter-plugin/src/sequence.rs) and the
-- spans that pass it.
use mathlib.Core.Path.{subst}
use lighter_integration.Base.{
  ℕ, ◌+◌, ◌^◌, ◌<◌, ◌≡◌, ◌≢◌, sym, ap, ◌⊎◌, Bool, true, false, not, Hash32, List, [], ◌∷◌, length,
  All, Option, none, some, bytes_eq_iff, ok, guarded, Passes, guarded-eq-ok, >>=-eq-ok, ok_or-eq-ok,
  arith,
}
use lighter_integration.Plugin.Join.{differs}
use lighter_integration.Plugin.Sequence.{
  ReceiptV3, SequenceTransitionPublicV3, TransitionAuthenticator,
}
use lighter_integration.Plugin.Sequence.Verify.{
  ReceiptScan, contains, not_after, checked_add, cursor_checks, receipt_checks, scan_receipt,
  scan_receipts,
}

-- Strictly later in the order of (tick, position).
abbrev pub After : Option (ℕ × ℕ) → ℕ → ℕ → Type 0
After none tick position = Unit
After (some (t, p)) tick position = (t < tick) ⊎ ((t ≡ tick) × (p < position))

not_after-After : (p : Option (ℕ × ℕ)) (t q : ℕ) → not_after p t q ≡ false → After p t q
unfolding not_after
not_after-After none t q h = tt
not_after-After (some (u, p)) t q h = ground arith

pub checked_add-eq-some :
    (a b : ℕ) {c : ℕ} → checked_add a b ≡ some c → (c ≡ a + b) × (a + b < 2 ^ 64)
unfolding checked_add
checked_add-eq-some a b h = ground arith

pub differs-eq : (a b : Hash32) → differs a b ≡ false → a ≡ b
differs-eq a b h = ground (arith, bytes_eq_iff a b)

module _ (authenticator : TransitionAuthenticator) (public : SequenceTransitionPublicV3) where
  open authenticator use {verify_receipt, verify_da}

  -- What one receipt satisfies against the variables of the loop.
  record Accepts (s : ReceiptScan) (r : ReceiptV3) : Type 0 where
    epoch : r.epoch ≡ public.old_state.epoch
    cursor : r.global_cursor ≡ s.expected_cursor
    room : s.expected_cursor + 1 < 2 ^ 64
    after : After s.previous_position r.tick r.position
    link : r.previous_receipt_digest ≡ s.previous_digest
    new_receipt : contains r.receipt_digest s.seen_receipts ≡ false
    new_envelope : contains r.envelope_hash s.seen_envelopes ≡ false
    authentic : verify_receipt r ≡ true
    available : verify_da r public.new_state.da_commitment ≡ true

  abbrev next_scan : ReceiptScan → ReceiptV3 → ReceiptScan
  next_scan s r = record {
    expected_cursor = s.expected_cursor + 1;
    previous_position = some (r.tick, r.position);
    previous_digest = r.receipt_digest;
    seen_receipts = r.receipt_digest ∷ s.seen_receipts;
    seen_envelopes = r.envelope_hash ∷ s.seen_envelopes;
  }

  not-false : (b : Bool) → not b ≡ false → b ≡ true
  not-false b h = ground arith

  cursor_checks_pass :
      (s : ReceiptScan) (r : ReceiptV3)
      → Passes (cursor_checks authenticator public s r)
      → (r.epoch ≡ public.old_state.epoch) × (r.global_cursor ≡ s.expected_cursor)
  unfolding cursor_checks
  cursor_checks_pass s r (c0, (c1, _)) = (ground arith, ground arith)

  receipt_checks_pass :
      (s : ReceiptScan) (r : ReceiptV3)
      → s.expected_cursor + 1 < 2 ^ 64
      → Passes (cursor_checks authenticator public s r)
      → Passes (receipt_checks authenticator public s r)
      → Accepts s r
  unfolding receipt_checks
  receipt_checks_pass s r room p (c2, (c3, (c4, (c5, (c6, (c7, _)))))) =
      let (e, c) = cursor_checks_pass s r p in
      record {
        epoch = e;
        cursor = c;
        room = room;
        after = not_after-After s.previous_position r.tick r.position c2;
        link = differs-eq _ _ c3;
        new_receipt = c4;
        new_envelope = c5;
        authentic = not-false _ c6;
        available = not-false _ c7;
      }

  scan_receipt-eq-ok :
      (s : ReceiptScan) (r : ReceiptV3) {s' : ReceiptScan}
      → scan_receipt authenticator public s r ≡ ok s'
      → Accepts s r × (s' ≡ next_scan s r)
  unfolding scan_receipt
  scan_receipt-eq-ok s r h =
      let (_, first, h₁) = >>=-eq-ok (guarded (cursor_checks authenticator public s r) (ok tt)) h in
      let (p, _) = guarded-eq-ok (cursor_checks authenticator public s r) (ok tt) first in
      let (n, fits, h₂) = ok_or-eq-ok (checked_add s.expected_cursor 1) _ h₁ in
      let (at, room) = checked_add-eq-some s.expected_cursor 1 fits in
      let (q, last) = guarded-eq-ok (receipt_checks authenticator public s r) _ h₂ in
      (receipt_checks_pass s r room p q, cc)

-- Consecutive cursors from `n` on.
abbrev pub Cursors : ℕ → List ReceiptV3 → Type 0
Cursors n [] = Unit
Cursors n (r ∷ rs) = (r.global_cursor ≡ n) × Cursors (n + 1) rs

-- Each receipt names the digest of the one before it, from digest `d` to digest `e`.
abbrev pub Linked : Hash32 → List ReceiptV3 → Hash32 → Type 0
Linked d [] e = d ≡ e
Linked d (r ∷ rs) e = (r.previous_receipt_digest ≡ d) × Linked r.receipt_digest rs e

-- Strictly increasing (tick, position).
abbrev pub Ordered : Option (ℕ × ℕ) → List ReceiptV3 → Type 0
Ordered p [] = Unit
Ordered p (r ∷ rs) = After p r.tick r.position × Ordered (some (r.tick, r.position)) rs

-- No digest and no envelope occurs twice.
abbrev pub Distinct : List ReceiptV3 → Type 0
Distinct [] = Unit
Distinct (r ∷ rs) =
    All
      (λ later. (later.receipt_digest ≢ r.receipt_digest) × (later.envelope_hash ≢ r.envelope_hash))
      rs
    × Distinct rs

contains-ne : (k : Hash32) (j : Hash32) (keys : List Hash32) → contains k (j ∷ keys) ≡ false → k ≢ j
unfolding contains
contains-ne k j keys h e = ground (arith, (bytes_eq_iff j k).1 (sym e))

contains_later :
    (k j : Hash32) (keys : List Hash32) → contains k (j ∷ keys) ≡ false → contains k keys ≡ false
unfolding contains
contains_later k j keys h = ground arith

module _ (authenticator : TransitionAuthenticator) (public : SequenceTransitionPublicV3) where
  open authenticator use {verify_receipt, verify_da}

  -- A span of receipts that the loop has passed, from its first cursor and digest to its last digest.
  pub record Span (first : ℕ) (before : Hash32) (rs : List ReceiptV3) (after : Hash32)
      : Type 0 where
    pub cursors : Cursors first rs
    pub linked : Linked before rs after
    pub distinct : Distinct rs
    pub authentic :
        All
          (λ r.
            (r.epoch ≡ public.old_state.epoch)
            × (verify_receipt r ≡ true)
            × (verify_da r public.new_state.da_commitment ≡ true))
          rs

  -- What was seen stays apart from all that passes later.
  apart_from :
      (d v : Hash32) (s : ReceiptScan) (rs : List ReceiptV3) {s' : ReceiptScan}
      → ((k : Hash32) → contains k s.seen_receipts ≡ false → k ≢ d)
      → ((k : Hash32) → contains k s.seen_envelopes ≡ false → k ≢ v)
      → scan_receipts authenticator public s rs ≡ ok s'
      → All (λ later. (later.receipt_digest ≢ d) × (later.envelope_hash ≢ v)) rs
  unfolding scan_receipts
  apart_from d v s [] hd hv h = tt
  apart_from d v s (r ∷ rs) {s'} hd hv h =
      let (s₁, one, rest) = >>=-eq-ok (scan_receipt authenticator public s r) h in
      let (a, e) = scan_receipt-eq-ok authenticator public s r one in
      (
        (hd r.receipt_digest a.new_receipt, hv r.envelope_hash a.new_envelope),
        apart_from d v (next_scan authenticator public s r) rs
            (λ k h. hd k (contains_later k r.receipt_digest s.seen_receipts h))
            (λ k h. hv k (contains_later k r.envelope_hash s.seen_envelopes h))
            (subst (λ x. scan_receipts authenticator public x rs ≡ ok s') e rest),
      )

  pub scan_receipts-Span :
      (s : ReceiptScan) (rs : List ReceiptV3) {s' : ReceiptScan}
      → scan_receipts authenticator public s rs ≡ ok s'
      → Span s.expected_cursor s.previous_digest rs s'.previous_digest
        × Ordered s.previous_position rs
        × (s'.expected_cursor ≡ s.expected_cursor + length rs)
  unfolding scan_receipts
  scan_receipts-Span s [] {s'} h =
      let same : s' ≡ s = cc in
      (
        record {
          cursors = tt;
          linked = ap (λ (x : ReceiptScan). x.previous_digest) (sym same);
          distinct = tt;
          authentic = tt;
        },
        tt,
        omega (arith, ap (λ (x : ReceiptScan). x.expected_cursor) same),
      )
  scan_receipts-Span s (r ∷ rs) {s'} h =
      let (s₁, one, rest) = >>=-eq-ok (scan_receipt authenticator public s r) h in
      let (a, e) = scan_receipt-eq-ok authenticator public s r one in
      let next = next_scan authenticator public s r in
      let rest' = subst (λ x. scan_receipts authenticator public x rs ≡ ok s') e rest in
      let (span, ordered, count) = scan_receipts-Span next rs rest' in
      (
        record {
          cursors = (a.cursor, span.cursors);
          linked = (a.link, span.linked);
          distinct = (
            apart_from r.receipt_digest r.envelope_hash next rs
                (λ k. contains-ne k r.receipt_digest s.seen_receipts)
                (λ k. contains-ne k r.envelope_hash s.seen_envelopes) rest',
            span.distinct,
          );
          authentic = ((a.epoch, a.authentic, a.available), span.authentic);
        },
        (a.after, ordered),
        omega (arith, count),
      )
