-- ===== src/Sequencer/Transcript/Complete.antt =====
-- `verify_span` (crates/sequencer/src/transcript.rs) against the tick-by-tick relation of
-- Transcript/Valid.
use lighter_integration.Base.{
  ℕ, zero, suc, ◌+◌, ◌-◌, ◌≡◌, refl, ap, ◌∙◌, false, ◌||◌, not, Hash32, bytes_eq_refl, List, [],
  ◌∷◌, Option, some, map, All, ok, guarded_pass, ◌↔◌, ◌!=◌, arith,
}
use lighter_integration.Plugin.Join.{differs}
use lighter_integration.Sequencer.Identity.{Primitives, Address}
use lighter_integration.Sequencer.Records.{
  BatchEntry, Receipt, leaf, digest_genesis, digest_step, log_step, x_hash, record_verify,
}
use lighter_integration.Sequencer.Records.Merkle.{merkle_root}
use lighter_integration.Sequencer.Store.{SealedTick}
use lighter_integration.Sequencer.Transcript.{
  entry_checks, receipt_check, EntryScan, root_differs, scan_entries, receipt_differs,
  check_receipts, record_checks, chain_checks, verify_tick, verify_ticks, verify_span,
}
use lighter_integration.Sequencer.Transcript.Valid.{
  Positioned, Fresh, seen_after, Backed, ValidTick, Span, verify_span-Span,
}

differs_same : (a b : Hash32) → a ≡ b → differs a b ≡ false
differs_same a b e = rw (e, bytes_eq_refl b) refl

module _ (primitives : Primitives) where
  scan_entries-passes :
      (t idx : ℕ) (s : EntryScan) (entries : List BatchEntry)
      → Positioned t idx entries
      → Fresh s.seen entries
      → (s' : EntryScan) × (scan_entries primitives t idx s entries ≡ ok s')
        × (s'.seen ≡ seen_after s.seen entries)
  unfolding scan_entries entry_checks
  scan_entries-passes t idx s [] p f = (s, refl, refl)
  scan_entries-passes t idx s (e ∷ entries) (at, pos, ps) (new, fs) =
      let (s', scanned, seen) =
        scan_entries-passes t (idx + 1)
          (record {
            d = digest_step primitives s.d t e.pos e.h e.bucket e.ticket_id;
            seen = e.h ∷ s.seen;
          })
          entries ps fs in
      (
        s',
        guarded_pass (entry_checks primitives t idx s.seen e) _ (ground arith, (new, tt)) ∙ scanned,
        seen,
      )

  check_receipts-passes :
      (t : ℕ) (entries : List BatchEntry) (receipts : List Receipt)
      → All (Backed primitives t entries) receipts
      → check_receipts primitives t entries receipts ≡ ok tt
  unfolding check_receipts receipt_check receipt_differs
  check_receipts-passes t entries [] h = refl
  check_receipts-passes t entries (r ∷ receipts) (b, rest) =
      let clean : receipt_differs primitives t r b.entry ≡ false =
        rw (differs_same _ _ b.digest, differs_same _ _ b.commitment) refl in
      rw (b.at_position, clean) (check_receipts-passes t entries receipts rest)

  root_differs-same :
      (entries : List BatchEntry) (root : Hash32)
      → merkle_root primitives (map (leaf primitives) entries) ≡ some root
      → root_differs primitives entries root ≡ false
  unfolding root_differs
  root_differs-same entries root e = rw (root_differs, e) (differs_same root root refl)

  verify_tick-passes :
      (epoch : ℕ) (sequencer : Address) (t : ℕ) (c : Hash32) (seen : List Hash32)
      (sealed : SealedTick)
      → ValidTick primitives epoch sequencer t c seen sealed
      → verify_tick primitives epoch sequencer t c seen sealed
        ≡ ok (sealed.record_of.c_t, seen_after seen sealed.entries)
  unfolding verify_tick record_checks chain_checks
  verify_tick-passes epoch sequencer t c seen sealed v =
      let start : EntryScan = record { d = digest_genesis primitives epoch t; seen = seen } in
      let (s', scanned, hashes) =
        scan_entries-passes t 0 start sealed.entries v.positioned v.fresh in
      let here : (sealed.record_of.tick != t || sealed.record_of.epoch != epoch) ≡ false =
        ground (arith, v.at_tick, v.in_epoch) in
      let after =
        log_step primitives c t sealed.record_of.batch_root (x_hash primitives sealed.record_of) in
      let signed : not (record_verify primitives sealed.record_of sequencer) ≡ false =
        rw v.signed refl in
      let rooted = root_differs-same sealed.entries sealed.record_of.batch_root v.rooted in
      let link : (differs sealed.record_of.c_prev c || differs sealed.record_of.c_t after) ≡ false =
        rw (differs_same _ _ v.linked, differs_same _ _ v.stepped) refl in
      let checked = check_receipts-passes t sealed.entries sealed.receipts v.backed in
      rw (here, signed, rooted, scanned, checked, link, hashes, ← v.stepped) refl

  verify_ticks-passes :
      (epoch : ℕ) (sequencer : Address) (ticks : ℕ → Option SealedTick) (count t : ℕ)
      (c c_after : Hash32) (seen : List Hash32)
      → Span primitives epoch sequencer ticks count t c c_after seen
      → verify_ticks primitives epoch sequencer ticks count t c seen ≡ ok c_after
  unfolding verify_ticks
  verify_ticks-passes epoch sequencer ticks zero t c c_after seen h = ap (λ x. ok x) h
  verify_ticks-passes epoch sequencer ticks (suc count) t c c_after seen
        (sealed, found, valid, rest) =
      rw (found, verify_tick-passes epoch sequencer t c seen sealed valid)
        (verify_ticks-passes epoch sequencer ticks count (t + 1) sealed.record_of.c_t c_after
          (seen_after seen sealed.entries) rest)

  -- Verify_span accepts a span of ticks exactly if it is published and valid tick by tick: signed
  -- records of the epoch that chain the log commitment, batches that have the signed root, stand at
  -- consecutive positions and admit no commitment twice in the span or before it, and receipts that
  -- extend the digests they name for the entries at their positions.
  pub verify_span-iff-Span :
      (epoch : ℕ) (sequencer : Address) (c_before c_after : Hash32) (from to : ℕ)
      (ticks : ℕ → Option SealedTick) (seen : List Hash32)
      → (verify_span primitives epoch sequencer c_before from to ticks seen ≡ ok c_after)
        ↔ Span primitives epoch sequencer ticks (to + 1 - from) from c_before c_after seen
  unfolding verify_span
  verify_span-iff-Span epoch sequencer c_before c_after from to ticks seen = (
    verify_span-Span primitives epoch sequencer c_before c_after from to ticks seen,
    verify_ticks-passes epoch sequencer ticks (to + 1 - from) from c_before c_after seen,
  )
