-- ===== src/Sequencer/Node/Sealing.antt =====
-- The tick that the coordinator (crates/sequencer/src/node.rs) seals, for a batch of entries that are
-- placed and fresh.
use lighter_integration.Base.{
  ℕ, zero, suc, ◌+◌, ◌^◌, ◌<◌, ◌≤◌, ◌≡◌, refl, sym, ap, ◌∙◌, Hash32, List, [], ◌∷◌, some, map,
  get_elem?, length, All, arith,
}
use lighter_integration.Sequencer.Identity.{Primitives, Recovers, address}
use lighter_integration.Sequencer.Identity.Signing.{verify_signed-sign}
use lighter_integration.Sequencer.Records.{leaf, x_hash, record_verify, record_message}
use lighter_integration.Sequencer.Records.Merkle.{merkle_root}
use lighter_integration.Sequencer.Records.Merkle.Path.{merkle_root_total}
use lighter_integration.Sequencer.Admission.{PendingEntry}
use lighter_integration.Sequencer.Admission.Placed.{PlacedAt, PlacedFrom}
use lighter_integration.Sequencer.Admission.Distinct.{FreshEntries, sealed_after}
use lighter_integration.Sequencer.Transcript.Valid.{
  Positioned, Fresh, seen_after, Backed, ValidTick,
}
use lighter_integration.Sequencer.Node.{Node}
use lighter_integration.Sequencer.Node.Tick.{
  batch_entry, receipt_in, batch_root, root_or_empty, tick_record, sealed_tick,
}

get_elem?-map {ℓ} :
    {A B : Type ℓ} (f : A → B) (xs : List A) (i : ℕ) (x : A)
    → get_elem? xs i ≡ some x
    → get_elem? (map f xs) i ≡ some (f x)
get_elem?-map f [] i x h = absurd (cc)
get_elem?-map f (y ∷ xs) zero x h = let same : y ≡ x = cc h in ap (λ z. some (f z)) same
get_elem?-map f (y ∷ xs) (suc i) x h = get_elem?-map f xs i x h

pub seen_after-sealed :
    (seen : List Hash32) (entries : List PendingEntry)
    → seen_after seen (map batch_entry entries) ≡ sealed_after seen entries
unfolding sealed_after batch_entry
seen_after-sealed seen [] = refl
seen_after-sealed seen (e ∷ entries) = seen_after-sealed (e.h ∷ seen) entries

Fresh-batch :
    (seen : List Hash32) (entries : List PendingEntry)
    → FreshEntries seen entries
    → Fresh seen (map batch_entry entries)
unfolding batch_entry
Fresh-batch seen [] f = tt
Fresh-batch seen (e ∷ entries) (new, f) = (new, Fresh-batch (e.h ∷ seen) entries f)

module _ (primitives : Primitives) where
  Positioned-batch :
      (t idx : ℕ) (entries : List PendingEntry)
      → PlacedFrom primitives t idx entries
      → Positioned t idx (map batch_entry entries)
  unfolding batch_entry
  Positioned-batch t idx [] p = tt
  Positioned-batch t idx (e ∷ entries) (here, p) =
      (here.at_tick, here.at_index, Positioned-batch t (idx + 1) entries p)

  Backed-entry :
      (t idx : ℕ) (batch : List PendingEntry) (e : PendingEntry)
      → get_elem? batch idx ≡ some e
      → idx < 2 ^ 32
      → PlacedAt primitives t idx e
      → Backed primitives t (map batch_entry batch) (receipt_in e)
  unfolding receipt_in batch_entry
  Backed-entry t idx batch e at small p =
      let place : e.receipt.pos ≡ idx = omega (arith, p.same_pos, p.at_index) in
      record {
        entry = batch_entry e;
        at_position = rw place (get_elem?-map batch_entry batch idx e at);
        commitment = p.same_hash;
        digest = rw p.same_pos p.digest;
      }

  -- `rest` is what is left of the batch after `idx` entries.
  Backed-batch :
      (t idx : ℕ) (batch rest : List PendingEntry)
      → ((i : ℕ) → get_elem? batch (idx + i) ≡ get_elem? rest i)
      → idx + length rest ≤ 2 ^ 32
      → PlacedFrom primitives t idx rest
      → All (Backed primitives t (map batch_entry batch)) (map receipt_in rest)
  Backed-batch t idx batch [] same small p = tt
  Backed-batch t idx batch (e ∷ rest) same small (here, p) =
      let at : get_elem? batch idx ≡ some e = ap (λ i. get_elem? batch i) (omega arith) ∙ same 0 in
      (
        Backed-entry t idx batch e at (omega arith) here,
        Backed-batch t (idx + 1) batch rest
            (λ i. ap (λ j. get_elem? batch j) (omega arith) ∙ same (suc i)) (omega arith) p,
      )

  batch_root-some :
      (entries : List PendingEntry)
      → merkle_root primitives (map (leaf primitives) (map batch_entry entries))
        ≡ some (batch_root primitives entries)
  unfolding batch_root
  batch_root-some entries =
      let (r, e) = merkle_root_total primitives (map (leaf primitives) (map batch_entry entries)) in
      e ∙ ap (λ x. some x) (sym (ap root_or_empty e))

  pub sealed_tick-ValidTick :
      (node : Node) (segment t x : ℕ) (entries : List PendingEntry) (seen : List Hash32)
      → Recovers primitives
      → PlacedFrom primitives t 0 entries
      → length entries ≤ 2 ^ 32
      → FreshEntries seen entries
      → ValidTick primitives node.config.params.epoch
          (address primitives node.identity)
          t
          node.c_prev
          seen
          (sealed_tick primitives node segment t x entries)
  unfolding sealed_tick tick_record record_verify record_message x_hash
  sealed_tick-ValidTick node segment t x entries seen law placed small fresh = record {
    at_tick = refl;
    in_epoch = refl;
    signed = verify_signed-sign primitives law node.identity _;
    rooted = batch_root-some entries;
    positioned = Positioned-batch t 0 entries placed;
    fresh = Fresh-batch seen entries fresh;
    backed =
        Backed-batch t 0 entries entries (λ i. ap (λ j. get_elem? entries j) (omega arith))
          (omega arith) placed;
    linked = refl;
    stepped = refl;
  }
