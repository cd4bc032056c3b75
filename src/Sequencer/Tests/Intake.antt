-- ===== src/Sequencer/Tests/Intake.antt =====
-- The theorems on parameters and admission (crates/sequencer/src/params.rs, admission.rs) at the
-- sequencer of Sequencer/Tests.
use lighter_integration.Base.{
  bytes_eq, div_ceil, replicate, ◌≤◌, ◌<◌, ◌≡◌, refl, true, List, [], ◌∷◌, All, some, ok, arith,
}
use lighter_integration.Plugin.Canonical.{to_be_bytes}
use lighter_integration.Sequencer.Params.{reference, check_no_look}
use lighter_integration.Sequencer.Envelope.{Ticket, majors, ticket_verify, encode}
use lighter_integration.Sequencer.Envelope.Decode.{decode}
use lighter_integration.Sequencer.Records.{Receipt}
use lighter_integration.Sequencer.Identity.{address, sign, verify_signed}
use lighter_integration.Sequencer.Records.Objects.{admitted, full_window, FullWindowResponse}
use lighter_integration.Sequencer.Admission.{Admission, default_buffer, new_admission, take_tick}
use lighter_integration.Sequencer.Admission.Submit.{submit, receipt_of}
use lighter_integration.Sequencer.Admission.Outcomes.{Answered}
use lighter_integration.Sequencer.Admission.Answers.{submit-Answered}
use lighter_integration.Sequencer.Admission.Promises.{Promised, submit-Promised}
use lighter_integration.Sequencer.Admission.Signed.{Verifies, submit-Verifies}
use lighter_integration.Sequencer.Admission.Capacity.{entries_in}
use lighter_integration.Sequencer.Admission.Runs.{here, submits, batch_within_capacity}
use lighter_integration.Sequencer.Admission.Faucet.{
  TicketFaucet, Mint, new_faucet, issuer_address, mint_all, DistinctIds, mint_all-Distinct,
}
use lighter_integration.Sequencer.Tests.{
  zeros, constant, constant-Recovers, key, someone, small_params, fresh, envelope, submission,
}

reference_passes : check_no_look reference ≡ some (ok tt)
unfolding check_no_look div_ceil
reference_passes = refl

-- The envelope goes through the codec both ways.
encodes : encode constant envelope 384 ≡ ok submission
unfolding encode to_be_bytes
encodes = refl

decodes : decode constant submission 384 ≡ ok envelope
unfolding decode bytes_eq
decodes = refl

abbrev receipt : Receipt
unfolding receipt_of
receipt = receipt_of constant (fresh 2) 1 default_buffer zeros envelope

admits : (submit constant (fresh 2) submission true).1 ≡ admitted receipt
unfolding submit small_params bytes_eq div_ceil verify_signed
admits = refl

abbrev full_response : FullWindowResponse
full_response = record {
  epoch = 0;
  bucket = envelope.bucket;
  window = envelope.window;
  capacity = 0;
  c_latest = zeros;
  sig = envelope.ticket.issuer_sig;
}

answers_full : (submit constant (fresh 0) submission true).1 ≡ full_window full_response
unfolding submit small_params bytes_eq div_ceil verify_signed sign
answers_full = refl

submit-Answered_example :
    Answered constant (fresh 2) submission true (submit constant (fresh 2) submission true)
submit-Answered_example = submit-Answered constant (fresh 2) submission true

submit-Promised_example :
    Promised constant (fresh 2) submission receipt (submit constant (fresh 2) submission true).0
submit-Promised_example = submit-Promised constant (fresh 2) submission true receipt admits

submit-Verifies_example :
    Verifies constant (submit constant (fresh 2) submission true).1 (address constant key)
submit-Verifies_example = submit-Verifies constant constant-Recovers (fresh 2) submission true

abbrev started : Admission
started = new_admission constant (small_params 2) key someone

small_capacity : (small_params 2).capacity_per_tick_per_bucket < 4294967296
unfolding small_params
small_capacity = omega arith

batch_within_capacity_example :
    entries_in 0 (take_tick (submit constant started submission true).0 1).1
    ≤ (small_params 2).capacity_per_tick_per_bucket
batch_within_capacity_example =
    batch_within_capacity constant (small_params 2) key someone
      (submit constant started submission true).0 1 0 small_capacity (submits submission true here)

abbrev faucet : TicketFaucet
unfolding new_faucet
faucet = new_faucet key

abbrev asked : List Mint
asked =
    record { denomination = 0; bucket = majors; random = replicate 8 4 }
    ∷ record { denomination = 1; bucket = majors; random = replicate 8 4 }
    ∷ []

mint_all-Distinct_example :
    DistinctIds (mint_all constant faucet asked)
    × All
        (λ (t : Ticket). ticket_verify constant t (issuer_address constant faucet) ≡ true)
        (mint_all constant faucet asked)
unfolding new_faucet
mint_all-Distinct_example = mint_all-Distinct constant asked faucet constant-Recovers (omega arith)
