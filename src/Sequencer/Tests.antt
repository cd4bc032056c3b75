-- ===== src/Sequencer/Tests.antt =====
-- A sequencer at concrete inputs (crates/sequencer/src): primitives of one value each, parameters, and
-- an envelope.
mod Intake
mod Codec
mod Chain
mod Clocked
mod Node
use lighter_integration.Base.{
  ℕ, Bytes, Hash32, List, [], ◌∷◌, ◌++◌, some, none, replicate, refl, length, ◌≡◌, ◌<◌, Bool, arith,
  codes,
}
use lighter_integration.Sequencer.Params.{PosqParams, dev, dev_delay}
use lighter_integration.Sequencer.Identity.{Primitives, Recovers, Address}
use lighter_integration.Sequencer.Envelope.{Window, Bucket, majors, Envelope, Ticket, Ciphertext}
use lighter_integration.Sequencer.Admission.{Admission}

abbrev pub zeros : Hash32
zeros = replicate 32 0

abbrev pub constant : Primitives
constant = record {
  keccak256 = λ _. zeros;
  sign_prehash_recoverable = λ _ _. (replicate 64 1, 0);
  recover_from_prehash = λ _ _ _. some (replicate 64 5);
  verifying_key = λ _. replicate 64 5;
  biguint_to_bytes_be = λ _. [];
  biguint_from_bytes_be = λ _. 0;
}

pub constant-Recovers : Recovers constant
constant-Recovers = record { size = λ _ _. refl; rid = λ _ _. omega arith; recovers = λ _ _. refl }

abbrev pub key : Bytes
key = 9 ∷ []

-- The address of every key.
abbrev pub someone : Address
someone = replicate 20 0

abbrev pub small_params : ℕ → PosqParams
unfolding dev
small_params capacity = record (dev 8 16) {
  envelope_bytes = 384;
  capacity_per_tick_per_bucket = capacity;
}

-- Ticks 1 to 4 of a fresh admission.
abbrev pub fresh : ℕ → Admission
fresh capacity = record {
  params = small_params capacity;
  identity = key;
  ticket_issuer = someone;
  open_tick = 1;
  x_prev_hash = zeros;
  c_prev = zeros;
  ticks = [];
  consumed_tickets = [];
  seen_h = [];
  fence_until = none;
}

abbrev pub envelope : Envelope
envelope = record {
  bucket = majors;
  namespace = 1;
  window = record { start = 1; len = 4 };
  delay_class = 0;
  nonce = replicate 16 3;
  ticket = record {
    id = replicate 16 8;
    denomination = 0;
    bucket = majors;
    issuer_sig = replicate 64 1 ++ 27 ∷ [];
  };
  ciphertext = record { class = 0; u = 0; body = 7 ∷ 7 ∷ [] };
}

abbrev pub submission : Bytes
submission =
    codes "PQ"
    ++ (1 ∷ 0 ∷ [])
    ++ (0 ∷ 0 ∷ 0 ∷ 0 ∷ 0 ∷ 0 ∷ 0 ∷ 1 ∷ [])
    ++ (0 ∷ 0 ∷ 0 ∷ 0 ∷ 0 ∷ 0 ∷ 0 ∷ 1 ∷ [])
    ++ (0 ∷ 4 ∷ 0 ∷ [])
    ++ replicate 16 3
    ++ replicate 16 8
    ++ (0 ∷ 0 ∷ [])
    ++ replicate 64 1
    ++ (27 ∷ 0 ∷ 0 ∷ [])
    ++ replicate 256 0
    ++ (0 ∷ 2 ∷ 7 ∷ 7 ∷ [])
