-- ===== src/Sequencer/Node/Tick.antt =====
-- crates/sequencer/src/node.rs: the stages of the handler for a tick. The broadcasts to subscribers and
-- the log lines are left out.
use lighter_integration.Base.{
  ℕ, ◌+◌, ◌-◌, ◌*◌, ◌^◌, Bool, true, false, ◌&&◌, ◌||◌, Hash32, List, [], ◌∷◌, ◌++◌, Option, none,
  some, map, length, take, ltb, leb, ◌==◌, if◌then◌else◌, wrap,
}
use lighter_integration.Sequencer.Params.{PosqParams, delay_ticks, grace_ticks}
use lighter_integration.Sequencer.Identity.{Primitives, sign}
use lighter_integration.Sequencer.Records.{
  BatchEntry, Receipt, TickRecord, leaf, log_step, hash_group_element, tick_record_message,
}
use lighter_integration.Sequencer.Records.Merkle.{merkle_root}
use lighter_integration.Sequencer.Admission.{
  PendingEntry, take_tick, advance_open, fence, lift_fence,
}
use lighter_integration.Sequencer.Store.{
  ChainStore, SealedTick, TapePosition, pending, same_key, key_before, insert_tick, add_position,
  overdue_positions, set_gaps,
}
use lighter_integration.Sequencer.Node.{Node, NodeConfig, WaveItem}

-- `BatchEntry` of a pending entry
unfoldable pub batch_entry : PendingEntry → BatchEntry
batch_entry e = record {
  tick = e.tick;
  pos = e.pos;
  h = e.h;
  bucket = e.bucket;
  ticket_id = e.ticket_id;
  receipt_sig = e.receipt.sig;
}

unfoldable pub receipt_in : PendingEntry → Receipt
receipt_in e = e.receipt

-- The tree has rounds enough (Records/Merkle/Path), so `none` does not occur.
abbrev pub root_or_empty : Option Hash32 → Hash32
root_or_empty none = []
root_or_empty (some root) = root

-- `waves.entry(key).or_default().push(item)`
unfoldable pub push_item :
    ℕ × ℕ → WaveItem → List ((ℕ × ℕ) × List WaveItem) → List ((ℕ × ℕ) × List WaveItem)
push_item key item [] = (key, item ∷ []) ∷ []
push_item key item ((k, items) ∷ waves) =
    let rest = push_item key item waves in
    if same_key k key
    then (k, items ++ item ∷ []) ∷ waves
    else if key_before key k
    then (key, item ∷ []) ∷ (k, items) ∷ waves
    else (k, items) ∷ rest

-- `delay_ticks(class).unwrap_or(u64::MAX)`; the outer `none` is the division by a zero of squarings.
abbrev pub delay_or_max : Option (Option ℕ) → ℕ
delay_or_max none = 2 ^ 64 - 1
delay_or_max (some none) = 2 ^ 64 - 1
delay_or_max (some (some d)) = d

abbrev pub header_aad_len : ℕ
header_aad_len = 39

unfoldable pub position_of : ℕ → PendingEntry → TapePosition
position_of mature_at e = record {
  tick = e.tick;
  pos = e.pos;
  h = e.h;
  bucket = e.bucket;
  delay_class = e.delay_class;
  outcome = pending mature_at;
}

unfoldable pub wave_item : PendingEntry → WaveItem
wave_item e = record {
  tick = e.tick;
  pos = e.pos;
  namespace = e.envelope.namespace;
  ct = e.envelope.ciphertext;
  aad = take header_aad_len e.envelope_bytes;
}

unfoldable pub maturity : PosqParams → ℕ → PendingEntry → ℕ
unfolding delay_ticks
maturity params tick e = wrap (tick + delay_or_max (delay_ticks params e.delay_class))

-- `for e in &entries`: the positions on the tape, and the waves.
unfoldable pub tape_entries : PosqParams → ℕ → List PendingEntry → ChainStore → ChainStore
unfolding maturity position_of add_position
tape_entries params tick [] store = store
tape_entries params tick (e ∷ entries) store =
    tape_entries params tick entries (add_position store (position_of (maturity params tick e) e))

unfoldable pub schedule :
    PosqParams
    → ℕ
    → List PendingEntry
    → List ((ℕ × ℕ) × List WaveItem)
    → List ((ℕ × ℕ) × List WaveItem)
unfolding maturity wave_item push_item
schedule params tick [] waves = waves
schedule params tick (e ∷ entries) waves =
    schedule params tick entries
      (push_item (maturity params tick e, e.delay_class) (wave_item e) waves)

-- `waves.range(..=(tick, u8::MAX))`
unfoldable pub is_due : ℕ → ℕ × ℕ → Bool
is_due tick (t, class) = ltb t tick || t == tick && leb class 255

unfoldable pub due : ℕ → List ((ℕ × ℕ) × List WaveItem) → List ((ℕ × ℕ) × List WaveItem)
unfolding is_due
due tick [] = []
due tick ((k, items) ∷ waves) =
    let rest = due tick waves in if is_due tick k then (k, items) ∷ rest else rest

unfoldable pub not_due : ℕ → List ((ℕ × ℕ) × List WaveItem) → List ((ℕ × ℕ) × List WaveItem)
unfolding is_due
not_due tick [] = []
not_due tick ((k, items) ∷ waves) =
    let rest = not_due tick waves in if is_due tick k then rest else (k, items) ∷ rest

-- `a.map(|s| s == tick)` of the test hook
abbrev pub is_tick : Option ℕ → ℕ → Bool
is_tick none tick = false
is_tick (some t) tick = t == tick

-- `late`, for the microseconds that have elapsed
unfoldable pub is_late : NodeConfig → ℕ → ℕ → Bool
is_late config tick elapsed =
    is_tick config.induce_late_tick tick
    || config.enforce_timeliness
      && ltb
          (wrap (
            wrap (tick * config.params.delta_micros)
            + wrap (config.params.gamma_ticks * config.params.delta_micros)))
          elapsed

-- The fence of a late tick, and its end.
unfoldable pub keep_time : Bool → ℕ → Node → Node
unfolding fence lift_fence
keep_time late tick node =
    if late
    then record node {
      admission = (fence node.admission tick).0;
      fence_active = true;
      status = record node.status { cadence_faults = node.status.cadence_faults ++ tick ∷ [] };
    }
    else if node.fence_active
    then record node { admission = lift_fence node.admission; fence_active = false }
    else node

-- The matured waves go to solver threads.
unfoldable pub dispatch_waves : ℕ → Node → Node
unfolding due not_due
dispatch_waves tick node = record node {
  waves = not_due tick node.waves;
  solving = node.solving ++ due tick node.waves;
  solver_outstanding = wrap (node.solver_outstanding + length (due tick node.waves));
}

-- The execution cutoff
unfoldable pub cut_overdue : ℕ → Node → Node
unfolding overdue_positions set_gaps grace_ticks
cut_overdue tick node =
    let keys = overdue_positions node.store tick (grace_ticks node.config.params) in
    record node {
      store = set_gaps keys node.store;
      status = record node.status { gaps = node.status.gaps + length keys };
    }

unfoldable pub report : ℕ → ℕ → ℕ → Node → Node
report segment tick count node = record node {
  current_tick = tick;
  status = record node.status {
    current_tick = tick;
    current_segment = segment;
    admitted = wrap (node.status.admitted + count);
  };
}

-- The store after `insert_tick`; a failed write is only logged.
unfoldable pub record_tick : SealedTick → Bool → ChainStore → ChainStore
unfolding insert_tick
record_tick sealed written store = elim (insert_tick store sealed written) [
  | none ↦ store
  | some s ↦ s
]

module _ (primitives : Primitives) where
  -- `merkle_root(&leaves)` of the batch
  unfoldable pub batch_root : List PendingEntry → Hash32
  unfolding batch_entry leaf merkle_root
  batch_root entries =
      root_or_empty (merkle_root primitives (map (leaf primitives) (map batch_entry entries)))

  -- The signed record of the tick.
  unfoldable pub tick_record : Node → ℕ → ℕ → ℕ → Hash32 → TickRecord
  unfolding log_step hash_group_element tick_record_message
  tick_record node segment tick x root =
      let epoch = node.config.params.epoch in
      let x_hash = hash_group_element primitives x in
      let c_t = log_step primitives node.c_prev tick root x_hash in
      record {
        epoch = epoch;
        segment = segment;
        tick = tick;
        x = x;
        c_prev = node.c_prev;
        c_t = c_t;
        batch_root = root;
        da_ref = root;
        sig =
            sign primitives node.identity
              (tick_record_message primitives epoch segment tick x_hash node.c_prev c_t root root);
      }

  unfoldable pub sealed_tick : Node → ℕ → ℕ → ℕ → List PendingEntry → SealedTick
  unfolding batch_root tick_record batch_entry receipt_in
  sealed_tick node segment tick x entries = record {
    record_of = tick_record node segment tick x (batch_root entries);
    entries = map batch_entry entries;
    receipts = map receipt_in entries;
  }

  -- From `take_tick` to `advance_open`: the batch is sealed, recorded and put on the tape.
  unfoldable pub seal_batch : ℕ → ℕ → ℕ → Bool → Node → Node
  unfolding take_tick sealed_tick record_tick tape_entries schedule advance_open hash_group_element
  seal_batch segment tick x written node =
      let (taken, entries) = take_tick node.admission tick in
      let sealed = sealed_tick node segment tick x entries in
      record node {
        admission = advance_open taken tick (hash_group_element primitives x) sealed.record_of.c_t;
        store =
            tape_entries node.config.params tick entries (record_tick sealed written node.store);
        waves = schedule node.config.params tick entries node.waves;
        c_prev = sealed.record_of.c_t;
      }

  -- `NodeEvent::Clock(ClockEvent::Tick { .. })`
  unfoldable pub on_tick : ℕ → ℕ → ℕ → Bool → ℕ → Node → Node
  unfolding seal_batch is_late keep_time dispatch_waves cut_overdue report take_tick
  on_tick segment tick x written elapsed node =
      let count = length (take_tick node.admission tick).1 in
      let sealed = seal_batch segment tick x written node in
      let timed = keep_time (is_late node.config tick elapsed) tick sealed in
      report segment tick count (cut_overdue tick (dispatch_waves tick timed))
