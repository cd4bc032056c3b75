-- ===== src/Sequencer/Admission/Faucet.antt =====
-- The development faucet of fee tickets (crates/sequencer/src/admission.rs); the random half of an id is an
-- argument.
use lighter_integration.Base.{
  ℕ, ◌+◌, ◌^◌, ◌<◌, ◌≤◌, ◌≡◌, ◌≢◌, sym, ◌∙◌, true, Bytes, List, [], ◌∷◌, ◌++◌, All, length, wrap,
  arith,
}
use lighter_integration.Plugin.Canonical.{to_be_bytes}
use lighter_integration.Plugin.Canonical.Reading.{
  length-to_be_bytes, to_be_bytes-injective, append-injective,
}
use lighter_integration.Sequencer.Identity.{Primitives, Recovers, Address, address}
use lighter_integration.Sequencer.Identity.Signing.{verify_signed-sign}
use lighter_integration.Sequencer.Envelope.{Bucket, Ticket, issue, ticket_verify, ticket_message}

pub record TicketFaucet : Type 0 where
  pub issuer : Bytes
  pub counter : ℕ

-- What is asked for, and the random bytes that are drawn.
pub record Mint : Type 0 where
  pub denomination : ℕ
  pub bucket : Bucket
  pub random : Bytes

unfoldable pub new_faucet : Bytes → TicketFaucet
new_faucet issuer = record { issuer = issuer; counter = 0 }

module _ (primitives : Primitives) where
  unfoldable pub issuer_address : TicketFaucet → Address
  unfolding address
  issuer_address faucet = address primitives faucet.issuer

  -- `TicketFaucet::mint`
  unfoldable pub mint : TicketFaucet → Mint → TicketFaucet × Ticket
  unfolding issue to_be_bytes
  mint faucet m =
      let counter = wrap (faucet.counter + 1) in
      (
        record faucet { counter = counter },
        issue primitives faucet.issuer (to_be_bytes 8 counter ++ m.random) m.denomination m.bucket,
      )

  -- The tickets of one mint after the other.
  unfoldable pub mint_all : TicketFaucet → List Mint → List Ticket
  unfolding mint
  mint_all faucet [] = []
  mint_all faucet (m ∷ ms) = (mint faucet m).1 ∷ mint_all (mint faucet m).0 ms

-- No two tickets have the same id.
abbrev pub DistinctIds : List Ticket → Type 0
DistinctIds [] = Unit
DistinctIds (t ∷ ts) = All (λ (u : Ticket). t.id ≢ u.id) ts × DistinctIds ts

module _ (primitives : Primitives) where
  -- The id of a counter that has been used is not minted again.
  mint_all-others :
      (ms : List Mint) (faucet : TicketFaucet) (c : ℕ) (r : Bytes)
      → c ≤ faucet.counter
      → faucet.counter + length ms < 2 ^ 64
      → All (λ (t : Ticket). to_be_bytes 8 c ++ r ≢ t.id) (mint_all primitives faucet ms)
  unfolding mint_all mint issue
  mint_all-others [] faucet c r below few = tt
  mint_all-others (m ∷ ms) faucet c r below few =
      let next : wrap (faucet.counter + 1) ≡ faucet.counter + 1 = omega (arith, few) in
      (
        λ e.
            let halves =
              append-injective (to_be_bytes 8 c) (to_be_bytes 8 (wrap (faucet.counter + 1))) r
                m.random
                (length-to_be_bytes 8 c ∙ sym (length-to_be_bytes 8 (wrap (faucet.counter + 1))))
                e in
            let same : c ≡ wrap (faucet.counter + 1) =
              to_be_bytes-injective 8 c (wrap (faucet.counter + 1)) (omega (arith, below, few))
                (omega (arith, few)) halves.0 in
            omega (arith, same, next, below),
        mint_all-others ms (mint primitives faucet m).0 c r (omega (arith, next, below))
            (omega (arith, next, few)),
      )

  verify-mint :
      (faucet : TicketFaucet) (m : Mint)
      → Recovers primitives
      → ticket_verify primitives (mint primitives faucet m).1 (issuer_address primitives faucet)
        ≡ true
  unfolding mint issue ticket_verify issuer_address
  verify-mint faucet m law = verify_signed-sign primitives law faucet.issuer (
      ticket_message (to_be_bytes 8 (wrap (faucet.counter + 1)) ++ m.random) m.denomination
        m.bucket)

  pub verify-mint_all :
      (ms : List Mint) (faucet : TicketFaucet)
      → Recovers primitives
      → All
          (λ (t : Ticket). ticket_verify primitives t (issuer_address primitives faucet) ≡ true)
          (mint_all primitives faucet ms)
  unfolding mint_all mint issue issuer_address
  verify-mint_all [] faucet law = tt
  verify-mint_all (m ∷ ms) faucet law =
      (verify-mint faucet m law, verify-mint_all ms (mint primitives faucet m).0 law)

  -- Whatever is asked for and whatever random bytes are drawn, the tickets that the faucet mints one
  -- after the other have different ids and verify at the address of its issuer, under the laws of
  -- ECDSA and while the counter stays below 2^64.
  pub mint_all-Distinct :
      (ms : List Mint) (faucet : TicketFaucet)
      → Recovers primitives
      → faucet.counter + length ms < 2 ^ 64
      → DistinctIds (mint_all primitives faucet ms)
        × All
            (λ (t : Ticket). ticket_verify primitives t (issuer_address primitives faucet) ≡ true)
            (mint_all primitives faucet ms)
  unfolding mint_all mint issue issuer_address
  mint_all-Distinct [] faucet law few = (tt, tt)
  mint_all-Distinct (m ∷ ms) faucet law few =
      let next : wrap (faucet.counter + 1) ≡ faucet.counter + 1 = omega (arith, few) in
      let faucet' = (mint primitives faucet m).0 in
      let (distinct, _) = mint_all-Distinct ms faucet' law (omega (arith, next, few)) in
      (
        (
          mint_all-others ms faucet' (wrap (faucet.counter + 1)) m.random (omega arith)
              (omega (arith, next, few)),
          distinct,
        ),
        verify-mint_all (m ∷ ms) faucet law,
      )
