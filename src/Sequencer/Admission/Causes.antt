-- ===== src/Sequencer/Admission/Causes.antt =====
-- Why `Admission::submit` (crates/sequencer/src/admission.rs) refuses an envelope that decodes: the rules
-- in the order of the code, and the reason for each.
use lighter_integration.Base.{
  ℕ, ◌<◌, ◌≤◌, ◌≡◌, refl, Bool, true, false, not, ◌||◌, Hash32, Option, none, some, ok, err, drop,
  ltb, guarded, guarded-eq-err, FirstMet, inl, inr, Passes, ◌!=◌, arith,
}
use mathlib.Core.Path.{subst}
use lighter_integration.Sequencer.Params.{delay_ticks}
use lighter_integration.Sequencer.Identity.{Primitives}
use lighter_integration.Sequencer.Envelope.{bucket_code, end_inclusive, Envelope, ticket_verify}
use lighter_integration.Sequencer.Records.Objects.{
  RejectReason, malformed, bad_ticket, ticket_consumed, duplicate, window_not_open, window_expired,
  bad_delay_class, fenced,
}
use lighter_integration.Sequencer.Admission.{Admission, member}
use lighter_integration.Sequencer.Admission.Submit.{
  Refusal, refuse, panic, is_absent, is_panic, is_fenced, submit_checks,
}

module _ (primitives : Primitives) (st : Admission) (h : Hash32) (env : Envelope) where
  -- The window is at most as long as the profile allows.
  abbrev pub Bounded : Type 0
  Bounded = env.window.len ≤ st.params.window_ticks

  -- And the delay class exists.
  abbrev pub Classed : Type 0
  Classed = Bounded × ((d : ℕ) × (delay_ticks st.params env.delay_class ≡ some (some d)))

  -- The ticket is for the class and the bucket, and the issuer has signed it.
  abbrev pub IsPaid : Type 0
  IsPaid =
      (env.ticket.denomination ≡ env.delay_class)
      × (bucket_code env.ticket.bucket ≡ bucket_code env.bucket)
      × (ticket_verify primitives env.ticket st.ticket_issuer ≡ true)

  abbrev pub Funded : Type 0
  Funded = Classed × IsPaid

  -- The window starts before a fence ends.
  abbrev pub IsFenced : Type 0
  IsFenced = (until : ℕ) × (st.fence_until ≡ some until) × (env.window.start ≤ until)

  abbrev pub Unfenced : Type 0
  Unfenced = Funded × (IsFenced → ⊥)

  abbrev pub Begun : Type 0
  Begun = Unfenced × (env.window.start ≤ st.open_tick)

  abbrev pub Live : Type 0
  Live = Begun × (st.open_tick ≤ end_inclusive env.window)

  abbrev pub Unspent : Type 0
  Unspent = Live × (member env.ticket.id st.consumed_tickets ≡ false)

  abbrev pub Unseen : Type 0
  Unseen = Unspent × (member h st.seen_h ≡ false)

  -- The first rule that the envelope breaks, and the reason that stands for it.
  pub data Blames : RejectReason → Type 0 where
    too_long : st.params.window_ticks < env.window.len → Blames malformed
    no_class : Bounded → delay_ticks st.params env.delay_class ≡ some none → Blames bad_delay_class
    unpaid : Classed → (IsPaid → ⊥) → Blames bad_ticket
    behind_fence : Funded → IsFenced → Blames fenced
    early : Unfenced → st.open_tick < env.window.start → Blames window_not_open
    late : Begun → end_inclusive env.window < st.open_tick → Blames window_expired
    spent : Live → member env.ticket.id st.consumed_tickets ≡ true → Blames ticket_consumed
    seen : Unspent → member h st.seen_h ≡ true → Blames duplicate

  abbrev pub Judged : Refusal → Type 0
  Judged (refuse reason) = Blames reason
  Judged panic = Bounded × (delay_ticks st.params env.delay_class ≡ none)

  class_known :
      (o : Option (Option ℕ))
      → is_panic o ≡ false
      → is_absent o ≡ false
      → (d : ℕ) × (o ≡ some (some d))
  class_known none p a = absurd (cc p)
  class_known (some none) p a = absurd (cc a)
  class_known (some (some d)) p a = (d, refl)

  panics : (o : Option (Option ℕ)) → is_panic o ≡ true → o ≡ none
  panics none p = refl
  panics (some o) p = absurd (cc p)

  absent : (o : Option (Option ℕ)) → is_absent o ≡ true → o ≡ some none
  absent none a = absurd (cc a)
  absent (some none) a = refl
  absent (some (some d)) a = absurd (cc a)

  fenced_in :
      (o : Option ℕ) (start : ℕ)
      → is_fenced o start ≡ true
      → (until : ℕ) × (o ≡ some until) × (start ≤ until)
  fenced_in none start f = absurd (cc f)
  fenced_in (some until) start f = (until, refl, ground (arith, f))

  not_fenced :
      (o : Option ℕ) (start : ℕ)
      → is_fenced o start ≡ false
      → ((until : ℕ) × (o ≡ some until) × (start ≤ until))
      → ⊥
  not_fenced none start f (until, e, low) = cc e
  not_fenced (some limit) start f (until, e, low) =
      let same : limit ≡ until = cc e in ground (arith, f, same, low)

  paid :
      (a b c d : ℕ) (v : Bool)
      → (a != b || c != d || not v) ≡ false
      → (a ≡ b) × (c ≡ d) × (v ≡ true)
  paid a b c d v f = ground (arith, f)

  not_paid :
      (a b c d : ℕ) (v : Bool)
      → (a != b || c != d || not v) ≡ true
      → (a ≡ b) × (c ≡ d) × (v ≡ true)
      → ⊥
  not_paid a b c d v f (e, e', e'') = ground (arith, f, e, e', e'')

  below : (m n : ℕ) → ltb m n ≡ true → m < n
  below m n t = ground (arith, t)

  at_most : (m n : ℕ) → ltb m n ≡ false → n ≤ m
  at_most m n f = ground (arith, f)

  -- The first check that fails is that of the first rule that is broken.
  judge : (r : Refusal) → FirstMet (submit_checks primitives st h env) r → Judged r
  unfolding submit_checks
  judge r (inl (t, e)) = subst Judged e (too_long (below _ _ t))
  judge r (inr (f0, inl (t, e))) = subst Judged e (at_most _ _ f0, panics _ t)
  judge r (inr (f0, inr (f1, inl (t, e)))) = subst Judged e (no_class (at_most _ _ f0) (absent _ t))
  judge r (inr (f0, inr (f1, inr (f2, inl (t, e))))) =
      subst Judged e (unpaid (at_most _ _ f0, class_known _ f1 f2) (not_paid _ _ _ _ _ t))
  judge r (inr (f0, inr (f1, inr (f2, inr (f3, later))))) =
      from ((at_most _ _ f0, class_known _ f1 f2), paid _ _ _ _ _ f3) later
    where
      from : Funded → FirstMet (drop 4 (submit_checks primitives st h env)) r → Judged r
      from bought (inl (t, e)) = subst Judged e (behind_fence bought (fenced_in _ _ t))
      from bought (inr (f4, inl (t, e))) =
          subst Judged e (early (bought, not_fenced _ _ f4) (below _ _ t))
      from bought (inr (f4, inr (f5, inl (t, e)))) =
          subst Judged e (late ((bought, not_fenced _ _ f4), at_most _ _ f5) (below _ _ t))
      from bought (inr (f4, inr (f5, inr (f6, inl (t, e))))) =
          subst Judged e (spent (((bought, not_fenced _ _ f4), at_most _ _ f5), at_most _ _ f6) t)
      from bought (inr (f4, inr (f5, inr (f6, inr (f7, inl (t, e)))))) =
          subst Judged e
            (seen ((((bought, not_fenced _ _ f4), at_most _ _ f5), at_most _ _ f6), f7) t)
      from bought (inr (f4, inr (f5, inr (f6, inr (f7, inr (f8, nothing)))))) = absurd nothing

  pub submit_checks-Judged :
      (r : Refusal) → guarded (submit_checks primitives st h env) (ok (tt {0})) ≡ err r → Judged r
  submit_checks-Judged r e = judge r (guarded-eq-err (submit_checks primitives st h env) tt e)

  -- What passes all checks breaks no rule.
  pub Passes-Unseen : Passes (submit_checks primitives st h env) → Unseen
  unfolding submit_checks
  Passes-Unseen (c0, (c1, (c2, (c3, (c4, (c5, (c6, (c7, (c8, _))))))))) =
      let bounded : Bounded = at_most _ _ c0 in
      let unfenced : Unfenced =
        (((bounded, class_known _ c1 c2), paid _ _ _ _ _ c3), not_fenced _ _ c4) in
      ((((unfenced, ground arith), ground arith), c7), c8)
