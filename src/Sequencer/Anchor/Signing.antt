-- ===== src/Sequencer/Anchor/Signing.antt =====
-- The signature and the calldata of an anchor (crates/sequencer/src/anchor.rs).
use lighter_integration.Base.{◌≡◌, true, Bytes}
use lighter_integration.Sequencer.Identity.{Primitives, Recovers, address}
use lighter_integration.Sequencer.Identity.Signing.{verify_signed-sign}
use lighter_integration.Sequencer.Anchor.{Anchor, anchor_message, anchor_sign, anchor_verify_sig}

-- Under the laws of ECDSA a signed anchor verifies at the signer's address.
pub anchor_verify_sig-anchor_sign :
    (primitives : Primitives)
    → Recovers primitives
    → (a : Anchor) (identity : Bytes)
    → anchor_verify_sig primitives (anchor_sign primitives a identity) (address primitives identity)
      ≡ true
unfolding anchor_verify_sig anchor_sign anchor_message
anchor_verify_sig-anchor_sign primitives law a identity =
    verify_signed-sign primitives law identity (anchor_message primitives a)
