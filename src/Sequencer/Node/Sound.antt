-- ===== src/Sequencer/Node/Sound.antt =====
-- The states of the coordinator (crates/sequencer/src/node.rs) between two ticks: the buffers of the
-- admission, and the log so far.
use lighter_integration.Base.{
  ℕ, suc, ◌+◌, ◌^◌, ◌<◌, ◌≤◌, ◌≡◌, refl, sym, ap, ◌∙◌, true, false, Bytes, Hash32, List, [], ◌∷◌,
  Option, some, length, arith,
}
use mathlib.Core.Path.{subst, subst₂}
use lighter_integration.Sequencer.Identity.{Primitives, Recovers, Address, address}
use lighter_integration.Sequencer.Envelope.{Bucket, majors, long_tail, bucket_code}
use lighter_integration.Sequencer.Records.{log_genesis}
use lighter_integration.Sequencer.Admission.{PendingEntry, take_tick, advance_open}
use lighter_integration.Sequencer.Admission.Buffers.{Buffers-drop_tick, Buffers-get_tick}
use lighter_integration.Sequencer.Admission.Capacity.{
  entries_in, WithinTicks-drop_tick, WithinBuffer-get_tick,
}
use lighter_integration.Sequencer.Admission.Runs.{Capped}
use lighter_integration.Sequencer.Admission.Placed.{
  PlacedBuffer, PlacedTicks, PlacedFrom, default_buffer-Placed,
}
use lighter_integration.Sequencer.Admission.Occurs.{occurs, occurs_ticks}
use lighter_integration.Sequencer.Admission.Distinct.{
  Distinct, Distinct-take_tick, Distinct-FreshEntries, sealed_after,
}
use lighter_integration.Sequencer.Store.{SealedTick, insert, insert_tick}
use lighter_integration.Sequencer.Transcript.Valid.{ValidTick, Span, seen_after}
use lighter_integration.Sequencer.Node.{Node, NodeConfig, new_node}
use lighter_integration.Sequencer.Node.Tick.{sealed_tick, seal_batch, record_tick, tick_record}
use lighter_integration.Sequencer.Node.Anchors.{get}
use lighter_integration.Sequencer.Node.Sealing.{sealed_tick-ValidTick, seen_after-sealed}
use lighter_integration.Sequencer.Node.Log.{
  get-insert_self, get-insert_other, span_seen, Span-agree, Span-snoc, ticks-tape_entries,
}
use lighter_integration.Sequencer.Node.View.{LogView, view}

pub length-entries_in :
    (entries : List PendingEntry) → length entries ≡ entries_in 0 entries + entries_in 1 entries
unfolding entries_in bucket_code
length-entries_in [] = refl
length-entries_in (e ∷ entries) = split e.bucket (length-entries_in entries)
  where
    split :
        (b : Bucket)
        → length entries ≡ entries_in 0 entries + entries_in 1 entries
        → suc (length entries)
          ≡ entries_in 0 (record e { bucket = b } ∷ entries)
            + entries_in 1 (record e { bucket = b } ∷ entries)
    split majors h = omega (arith, h)
    split long_tail h = omega (arith, h)

module _ (primitives : Primitives) (config : NodeConfig) (identity : Bytes) where
  abbrev sequencer : Address
  sequencer = address primitives identity

  abbrev epoch : ℕ
  epoch = config.params.epoch

  abbrev pub log_of : LogView → ℕ → Option SealedTick
  log_of v t = get t v.ticks

  -- The state after `count` ticks: the buffers keep to the rules, and the log is a span.
  pub record Sound (count : ℕ) (v : LogView) : Type 0 where
    pub same_config : v.config ≡ config
    pub same_identity : v.identity ≡ identity
    pub idle : v.fence_active ≡ false
    pub placed : PlacedTicks primitives v.admission.ticks
    pub capped : Capped config.params v.admission
    pub distinct : Distinct (span_seen (log_of v) count 1 []) v.admission
    pub span :
        Span primitives epoch sequencer
          (log_of v)
          count
          1
          (log_genesis primitives epoch)
          v.c_prev
          []

  pub Sound-new_node :
      (issuer : Bytes) (entropy : Hash32)
      → Sound 0 (view (new_node primitives config identity issuer entropy))
  unfolding new_node span_seen occurs occurs_ticks
  Sound-new_node issuer entropy = record {
    same_config = refl;
    same_identity = refl;
    idle = refl;
    placed = tt;
    capped = record { same_params = refl; within = tt };
    distinct = record {
      sorted = tt;
      once = λ h. omega arith;
      seen = λ h pos. absurd (omega (arith, pos));
    };
    span = refl;
  }

  -- the rules of the buffers, when a batch is taken
  Sound-batch :
      (count t : ℕ) (v : LogView)
      → config.params.capacity_per_tick_per_bucket ≤ 2 ^ 31
      → Sound count v
      → PlacedFrom primitives t 0 (take_tick v.admission t).1
        × (length (take_tick v.admission t).1 ≤ 2 ^ 32)
  unfolding take_tick
  Sound-batch count t v small s =
      let cap = config.params.capacity_per_tick_per_bucket in
      let entries = (take_tick v.admission t).1 in
      let within = WithinBuffer-get_tick cap t v.admission.ticks s.capped.within in
      (
        (Buffers-get_tick (PlacedBuffer primitives) t v.admission.ticks
            (default_buffer-Placed primitives t) s.placed).placed,
        omega (
          arith,
          length-entries_in entries,
          (within 0).0,
          (within 0).1,
          (within 1).0,
          (within 1).1,
        ),
      )

  ticks-seal_batch :
      (segment t x : ℕ) (node : Node)
      → (seal_batch primitives segment t x true node).store.ticks
        ≡ insert t
            (sealed_tick primitives node segment t x (take_tick node.admission t).1)
            node.store.ticks
  unfolding seal_batch record_tick insert_tick take_tick sealed_tick tick_record
  ticks-seal_batch segment t x node =
      ticks-tape_entries node.config.params t (take_tick node.admission t).1 _

  -- A batch that is taken makes the log a span that is one tick longer.
  Span-seal_batch :
      (count segment x : ℕ) (node : Node)
      → Recovers primitives
      → config.params.capacity_per_tick_per_bucket ≤ 2 ^ 31
      → Sound count (view node)
      → Span primitives epoch sequencer
          (log_of (view (seal_batch primitives segment (suc count) x true node)))
          (suc count)
          1
          (log_genesis primitives epoch)
          (seal_batch primitives segment (suc count) x true node).c_prev
          []
        × (span_seen
              (log_of (view (seal_batch primitives segment (suc count) x true node)))
              (suc count)
              1
              []
            ≡ sealed_after
                (span_seen (log_of (view node)) count 1 [])
                (take_tick node.admission (suc count)).1)
  unfolding seal_batch advance_open take_tick sealed_tick
  Span-seal_batch count segment x node law small s =
      let t = suc count in
      let entries = (take_tick node.admission t).1 in
      let seen = span_seen (log_of (view node)) count 1 [] in
      let sealed = sealed_tick primitives node segment t x entries in
      let (placed, short) = Sound-batch count t (view node) small s in
      let valid = ValidTick-config node segment t x entries seen s.same_config s.same_identity (
        sealed_tick-ValidTick primitives node segment t x entries seen law placed short
          (Distinct-FreshEntries seen node.admission t s.distinct)) in
      let log = log_of (view node) in
      let log' = log_of (view (seal_batch primitives segment t x true node)) in
      let ticks = ticks-seal_batch segment t x node in
      let found : log' t ≡ some sealed =
        ap (λ l. get t l) ticks ∙ get-insert_self t sealed node.store.ticks in
      let agree : (j : ℕ) → j < 1 + count → log' j ≡ log j = λ j l.
        ap (λ l. get j l) ticks
        ∙ get-insert_other t j sealed node.store.ticks (λ e. omega (arith, l, e)) in
      let (kept, hashes) =
        Span-agree primitives epoch sequencer log log' count 1 (log_genesis primitives epoch)
          node.c_prev [] agree s.span in
      let (longer, hashes') =
        Span-snoc primitives epoch sequencer log' count 1 t (log_genesis primitives epoch)
          node.c_prev [] sealed (omega arith) kept found
          (subst (λ h. ValidTick primitives epoch sequencer t node.c_prev h sealed) (sym hashes)
            valid) in
      (
        longer,
        hashes' ∙ (ap (λ h. seen_after h sealed.entries) hashes ∙ seen_after-sealed seen entries),
      )
    where
      ValidTick-config :
          (node : Node) (segment t x : ℕ) (entries : List PendingEntry) (seen : List Hash32)
          → node.config ≡ config
          → node.identity ≡ identity
          → ValidTick primitives node.config.params.epoch
              (address primitives node.identity)
              t
              node.c_prev
              seen
              (sealed_tick primitives node segment t x entries)
          → ValidTick primitives epoch sequencer t node.c_prev seen
              (sealed_tick primitives node segment t x entries)
      ValidTick-config node segment t x entries seen ec ei valid =
          subst₂
            (λ c i.
              ValidTick primitives c.params.epoch (address primitives i) t node.c_prev seen
                (sealed_tick primitives node segment t x entries))
            ec ei valid

  pub Sound-seal_batch :
      (count segment x : ℕ) (node : Node)
      → Recovers primitives
      → config.params.capacity_per_tick_per_bucket ≤ 2 ^ 31
      → Sound count (view node)
      → Sound (suc count) (view (seal_batch primitives segment (suc count) x true node))
  unfolding seal_batch advance_open take_tick
  Sound-seal_batch count segment x node law small s =
      let t = suc count in
      let seen = span_seen (log_of (view node)) count 1 [] in
      let (longer, seen') = Span-seal_batch count segment x node law small s in
      let d = Distinct-take_tick seen node.admission t s.distinct in
      record {
        same_config = s.same_config;
        same_identity = s.same_identity;
        idle = s.idle;
        placed = Buffers-drop_tick (PlacedBuffer primitives) t node.admission.ticks s.placed;
        capped = record {
          same_params = s.capped.same_params;
          within =
              WithinTicks-drop_tick config.params.capacity_per_tick_per_bucket t
                node.admission.ticks s.capped.within;
        };
        distinct =
            subst (λ h. Distinct h (seal_batch primitives segment t x true node).admission)
              (sym seen') (record { sorted = d.sorted; once = d.once; seen = d.seen });
        span = longer;
      }
