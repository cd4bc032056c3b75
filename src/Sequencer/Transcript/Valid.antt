-- ===== src/Sequencer/Transcript/Valid.antt =====
-- The relation of `verify_span` (crates/sequencer/src/transcript.rs), tick by tick.
use lighter_integration.Base.{
  ℕ, zero, suc, ◌+◌, ◌-◌, ◌%◌, ◌^◌, ◌≡◌, sym, ap, ◌∙◌, true, false, Hash32, bytes_eq_iff, List, [],
  ◌∷◌, Option, some, map, get_elem?, All, ok, ok_bind, ok_some, ok_guarded, guarded-eq-ok, or_false,
  arith,
}
use lighter_integration.Plugin.Join.{differs}
use lighter_integration.Sequencer.Identity.{Primitives, Address}
use lighter_integration.Sequencer.Records.{
  BatchEntry, Receipt, leaf, digest_genesis, digest_step, log_step, x_hash, record_verify,
}
use lighter_integration.Sequencer.Records.Merkle.{merkle_root}
use lighter_integration.Sequencer.Records.Merkle.Path.{merkle_root_total}
use lighter_integration.Sequencer.Admission.{member}
use lighter_integration.Sequencer.Store.{SealedTick}
use lighter_integration.Sequencer.Transcript.{
  missing_tick, digest_chain_broken, entry_checks, receipt_check, EntryScan, root_differs,
  scan_entries, receipt_differs, check_receipts, record_checks, chain_checks, verify_tick,
  verify_ticks, verify_span,
}

-- The entries of tick `t` stand at the positions from `idx` on.
abbrev pub Positioned : ℕ → ℕ → List BatchEntry → Type 0
Positioned t idx [] = Unit
Positioned t idx (e ∷ entries) =
    (e.tick ≡ t) × (e.pos ≡ idx % 2 ^ 32) × Positioned t (idx + 1) entries

-- No commitment was seen before, in the batch or earlier.
abbrev pub Fresh : List Hash32 → List BatchEntry → Type 0
Fresh seen [] = Unit
Fresh seen (e ∷ entries) = (member e.h seen ≡ false) × Fresh (e.h ∷ seen) entries

abbrev pub seen_after : List Hash32 → List BatchEntry → List Hash32
seen_after seen [] = seen
seen_after seen (e ∷ entries) = seen_after (e.h ∷ seen) entries

differs-eq : (a b : Hash32) → differs a b ≡ false → a ≡ b
differs-eq a b h = ground (arith, bytes_eq_iff a b)

module _ (primitives : Primitives) where
  -- A receipt is for the entry at its position, and its digest extends the digest that it names.
  pub record Backed (t : ℕ) (entries : List BatchEntry) (r : Receipt) : Type 0 where
    pub entry : BatchEntry
    pub at_position : get_elem? entries r.pos ≡ some entry
    pub commitment : r.h ≡ entry.h
    pub digest : r.d ≡ digest_step primitives r.d_prev t r.pos entry.h entry.bucket entry.ticket_id

  pub record ValidTick (epoch : ℕ) (sequencer : Address) (t : ℕ) (c : Hash32) (seen : List Hash32)
      (sealed : SealedTick) : Type 0 where
    pub at_tick : sealed.record_of.tick ≡ t
    pub in_epoch : sealed.record_of.epoch ≡ epoch
    pub signed : record_verify primitives sealed.record_of sequencer ≡ true
    pub rooted :
        merkle_root primitives (map (leaf primitives) sealed.entries)
        ≡ some sealed.record_of.batch_root
    pub positioned : Positioned t 0 sealed.entries
    pub fresh : Fresh seen sealed.entries
    pub backed : All (Backed t sealed.entries) sealed.receipts
    pub linked : sealed.record_of.c_prev ≡ c
    pub stepped :
        sealed.record_of.c_t
        ≡ log_step primitives c t sealed.record_of.batch_root (x_hash primitives sealed.record_of)

  scan_entries-eq-ok :
      (t idx : ℕ) (s : EntryScan) (entries : List BatchEntry) (s' : EntryScan)
      → scan_entries primitives t idx s entries ≡ ok s'
      → Positioned t idx entries × Fresh s.seen entries × (s'.seen ≡ seen_after s.seen entries)
  unfolding scan_entries entry_checks
  scan_entries-eq-ok t idx s [] s' h =
      (tt, tt, let same : s ≡ s' = cc h in sym (ap (λ (x : EntryScan). x.seen) same))
  scan_entries-eq-ok t idx s (e ∷ entries) s' h =
      let ((order, (new, _)), rest) =
        guarded-eq-ok (entry_checks primitives t idx s.seen e)
          (scan_entries primitives t (idx + 1) _ entries) h in
      let (ps, fs, es) = scan_entries-eq-ok t (idx + 1) _ entries s' rest in
      ((ground arith, ground arith, ps), (new, fs), es)

  check_receipts-All :
      (t : ℕ) (entries : List BatchEntry) (receipts : List Receipt)
      → check_receipts primitives t entries receipts ≡ ok tt
      → All (Backed t entries) receipts
  unfolding check_receipts receipt_check receipt_differs
  check_receipts-All t entries [] h = tt
  check_receipts-All t entries (r ∷ receipts) h =
      ok_some (get_elem? entries r.pos) (digest_chain_broken t r.pos) h λ e at rest.
        ok_guarded (receipt_check primitives t r e) rest λ passes last.
          let (d, hash) = or_false _ _ passes.0 in
          (
            record {
              entry = e;
              at_position = at;
              commitment = differs-eq _ _ hash;
              digest = differs-eq _ _ d;
            },
            check_receipts-All t entries receipts last,
          )

  root_differs-rooted :
      (entries : List BatchEntry) (root : Hash32)
      → root_differs primitives entries root ≡ false
      → merkle_root primitives (map (leaf primitives) entries) ≡ some root
  unfolding root_differs
  root_differs-rooted entries root h =
      let (r, e) = merkle_root_total primitives (map (leaf primitives) entries) in
      let same : differs r root ≡ false = rw (root_differs, e) at h in
      e ∙ ap (λ x. some x) (differs-eq r root same)

  verify_tick-ValidTick :
      (epoch : ℕ) (sequencer : Address) (t : ℕ) (c : Hash32) (seen : List Hash32)
      (sealed : SealedTick) (next : Hash32 × List Hash32)
      → verify_tick primitives epoch sequencer t c seen sealed ≡ ok next
      → ValidTick epoch sequencer t c seen sealed
        × (next.0 ≡ sealed.record_of.c_t)
        × (next.1 ≡ seen_after seen sealed.entries)
  unfolding verify_tick record_checks chain_checks
  verify_tick-ValidTick epoch sequencer t c seen sealed next h =
      ok_guarded (record_checks primitives epoch sequencer t sealed) h
        λ (here, (sig, (root, _))) h₁.
          ok_bind (scan_entries primitives t 0 (start epoch t seen) sealed.entries) h₁
            λ scan scanned h₂.
              ok_bind (check_receipts primitives t sealed.entries sealed.receipts) h₂
                λ u checked h₃.
                  let ((link, _), done) =
                    guarded-eq-ok (chain_checks primitives t c (after t c sealed) sealed)
                      (ok (after t c sealed, scan.seen)) h₃ in
                  let (prev, step) = or_false _ _ link in
                  let (ps, fs, es) =
                    scan_entries-eq-ok t 0 (start epoch t seen) sealed.entries scan scanned in
                  let pair : (after t c sealed, scan.seen) ≡ next = cc done in
                  (
                    record {
                      at_tick = ground arith;
                      in_epoch = ground arith;
                      signed = ground arith;
                      rooted = root_differs-rooted sealed.entries sealed.record_of.batch_root root;
                      positioned = ps;
                      fresh = fs;
                      backed = check_receipts-All t sealed.entries sealed.receipts checked;
                      linked = differs-eq _ _ prev;
                      stepped = differs-eq _ _ step;
                    },
                    sym (ap (λ (x : Hash32 × List Hash32). x.0) pair) ∙ sym (differs-eq _ _ step),
                    sym (ap (λ (x : Hash32 × List Hash32). x.1) pair) ∙ es,
                  )
    where
      start : ℕ → ℕ → List Hash32 → EntryScan
      start epoch t seen = record { d = digest_genesis primitives epoch t; seen = seen }

      after : ℕ → Hash32 → SealedTick → Hash32
      after t c sealed =
          log_step primitives c t sealed.record_of.batch_root (x_hash primitives sealed.record_of)

  -- `count` valid ticks from `t` on, whose log commitments lead from `c` to `c_after`.
  abbrev pub Span :
      ℕ → Address → (ℕ → Option SealedTick) → ℕ → ℕ → Hash32 → Hash32 → List Hash32 → Type 0
  Span epoch sequencer ticks zero t c c_after seen = c ≡ c_after
  Span epoch sequencer ticks (suc count) t c c_after seen =
      (sealed : SealedTick) × (ticks t ≡ some sealed)
      × ValidTick epoch sequencer t c seen sealed
      × Span epoch sequencer ticks count (t + 1) sealed.record_of.c_t c_after
          (seen_after seen sealed.entries)

  verify_ticks-Span :
      (epoch : ℕ) (sequencer : Address) (ticks : ℕ → Option SealedTick) (count t : ℕ)
      (c c_after : Hash32) (seen : List Hash32)
      → verify_ticks primitives epoch sequencer ticks count t c seen ≡ ok c_after
      → Span epoch sequencer ticks count t c c_after seen
  unfolding verify_ticks
  verify_ticks-Span epoch sequencer ticks zero t c c_after seen h = cc h
  verify_ticks-Span epoch sequencer ticks (suc count) t c c_after seen h =
      ok_some (ticks t) (missing_tick t) h λ sealed found h₁.
        ok_bind (verify_tick primitives epoch sequencer t c seen sealed) h₁ λ next checked h₂.
          let (valid, commitment, hashes) =
            verify_tick-ValidTick epoch sequencer t c seen sealed next checked in
          (
            sealed,
            found,
            valid,
            rw (← commitment, ← hashes)
                (verify_ticks-Span epoch sequencer ticks count (t + 1) next.0 c_after next.1 h₂),
          )

  -- A span that verify_span accepts is published and valid tick by tick: signed records of the epoch
  -- that chain the log commitment, batches that have the signed root, stand at consecutive positions
  -- and admit no commitment twice in the span or before it, and receipts that extend the digests
  -- they name for the entries at their positions.
  pub verify_span-Span :
      (epoch : ℕ) (sequencer : Address) (c_before c_after : Hash32) (from to : ℕ)
      (ticks : ℕ → Option SealedTick) (seen : List Hash32)
      → verify_span primitives epoch sequencer c_before from to ticks seen ≡ ok c_after
      → Span epoch sequencer ticks (to + 1 - from) from c_before c_after seen
  unfolding verify_span
  verify_span-Span epoch sequencer c_before c_after from to ticks seen h =
      verify_ticks-Span epoch sequencer ticks (to + 1 - from) from c_before c_after seen h
