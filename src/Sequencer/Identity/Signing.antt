-- ===== src/Sequencer/Identity/Signing.antt =====
-- Signing and verifying (crates/sequencer/src/identity.rs).
use lighter_integration.Base.{
  zero, suc, ◌∙◌, refl, ap, false, ltb, ℕ, ◌+◌, ◌-◌, ◌≡◌, true, Bytes, Hash32, bytes_eq_refl, [],
  ◌∷◌, ◌++◌, some, get_elem?, take, length, arith,
}
use lighter_integration.Sequencer.Identity.{
  Primitives, Address, Recovers, address, address_of, sign, sign_digest, recover_with,
  recover_address, verify_signed,
}

take-append : (n : ℕ) (a b : Bytes) → length a ≡ n → take n (a ++ b) ≡ a
take-append zero [] b h = refl
take-append zero (x ∷ a) b h = absurd (omega arith)
take-append (suc n) [] b h = absurd (omega arith)
take-append (suc n) (x ∷ a) b h = ap (λ t. x ∷ t) (take-append n a b (omega arith))

get_elem?-append : (n : ℕ) (a : Bytes) (x : ℕ) → length a ≡ n → get_elem? (a ++ x ∷ []) n ≡ some x
get_elem?-append zero [] x h = refl
get_elem?-append zero (y ∷ a) x h = absurd (omega arith)
get_elem?-append (suc n) [] x h = absurd (omega arith)
get_elem?-append (suc n) (y ∷ a) x h = get_elem?-append n a x (omega arith)

module _ (primitives : Primitives) where
  open primitives use {keccak256, recover_from_prehash}

  recover_with-some :
      (digest : Hash32) (sig vk : Bytes) (rid : ℕ)
      → recover_from_prehash digest sig rid ≡ some vk
      → recover_with primitives digest sig (some (27 + rid)) ≡ some (address_of primitives vk)
  unfolding recover_with
  recover_with-some digest sig vk rid e =
      let v : 27 + rid - 27 ≡ rid = omega arith in
      let high : ltb (27 + rid) 27 ≡ false = ground arith in rw (high, v, e) refl

  recover_address-append :
      (digest : Hash32) (sig : Bytes) (v : ℕ)
      → length sig ≡ 64
      → recover_address primitives digest (sig ++ v ∷ [])
        ≡ recover_with primitives digest sig (some v)
  unfolding recover_address
  recover_address-append digest sig v l =
      cc (take-append 64 sig (v ∷ []) l, get_elem?-append 64 sig v l)

  verify_signed-recovers :
      (message : Bytes) (sig : Bytes) (a : Address)
      → recover_address primitives (keccak256 message) sig ≡ some a
      → verify_signed primitives message sig a ≡ true
  unfolding verify_signed
  verify_signed-recovers message sig a e = rw (verify_signed, e) (bytes_eq_refl a)

  -- Under the laws of ECDSA, whatever key signs a message, the signature verifies at that key's
  -- address.
  pub verify_signed-sign :
      Recovers primitives
      → (sk message : Bytes)
      → verify_signed primitives message (sign primitives sk message) (address primitives sk) ≡ true
  unfolding sign sign_digest address
  verify_signed-sign law sk message =
      let digest = keccak256 message in
      let signed = primitives.sign_prehash_recoverable sk digest in
      verify_signed-recovers message (signed.0 ++ (27 + signed.1) ∷ [])
        (address_of primitives (primitives.verifying_key sk))
        (recover_address-append digest signed.0 (27 + signed.1) (law.size sk digest)
          ∙ recover_with-some digest signed.0 (primitives.verifying_key sk) signed.1
              (law.recovers sk digest))
