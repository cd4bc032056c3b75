-- ===== src/Base/Results.antt =====
-- `Result<A, E>`, the early return `if c { return Err(e) }`, and the `?` of a fallible call.
use mathlib.Core.Path.{◌≡◌, refl}
use mathlib.Core.Bool.{Bool, true, false}
use mathlib.Core.List.{List, [], ◌∷◌}
use mathlib.Core.Logic.{◌⊎◌, inl, inr}
use mathlib.Core.Option.{Option, none, some}

pub data Result {ℓ} (E A : Type ℓ) : Type ℓ where
  ok : A → Result E A
  err : E → Result E A

infixl 5 ◌>>=◌ ◌>>◌
abbrev pub ◌>>=◌ {ℓ} : {E A B : Type ℓ} → Result E A → (A → Result E B) → Result E B
ok a >>= f = f a
err e >>= f = err e

abbrev pub ◌>>◌ {ℓ} : {E A B : Type ℓ} → Result E A → Result E B → Result E B
m >> k = m >>= λ _. k

-- `if c { return Err(e); }`
abbrev pub reject_if {ℓ} : {E : Type ℓ} → Bool → E → Result E (Unit {ℓ})
reject_if true e = err e
reject_if false e = ok tt

-- `o.ok_or(e)?`
abbrev pub ok_or {ℓ} : {E A : Type ℓ} → Option A → E → Result E A
ok_or none e = err e
ok_or (some a) e = ok a

-- A run of early returns, in the order in which the code makes them, and what follows them.
abbrev pub guarded {ℓ} : {E A : Type ℓ} → List (Bool × E) → Result E A → Result E A
guarded [] k = k
guarded ((c, e) ∷ checks) k = reject_if c e >> guarded checks k

-- No condition of the run was met.
abbrev pub Passes {ℓ} : {E : Type ℓ} → List (Bool × E) → Type 0
Passes [] = Unit
Passes ((c, e) ∷ checks) = (c ≡ false) × Passes checks

module _ {ℓ} {E A : Type ℓ} where
  pub guarded-eq-ok :
      (checks : List (Bool × E)) (k : Result E A) {a : A}
      → guarded checks k ≡ ok a
      → Passes checks × (k ≡ ok a)
  guarded-eq-ok [] k h = (tt, h)
  guarded-eq-ok ((true, e) ∷ checks) k h = cc
  guarded-eq-ok ((false, e) ∷ checks) k h =
      let (passes, last) = guarded-eq-ok checks k h in ((refl, passes), last)

  pub guarded_pass :
      (checks : List (Bool × E)) (k : Result E A) → Passes checks → guarded checks k ≡ k
  guarded_pass [] k h = refl
  guarded_pass ((c, e) ∷ checks) k h = rw h.0 (guarded_pass checks k h.1)

module _ {ℓ} {E A : Type ℓ} where
  -- A computation that got past its early return has not met the condition.
  pub reject_if-eq-ok :
      (c : Bool) (e : E) (k : Result E A) {a : A}
      → (reject_if c e >> k) ≡ ok a
      → (c ≡ false) × (k ≡ ok a)
  reject_if-eq-ok true e k h = cc
  reject_if-eq-ok false e k h = (refl, h)

module _ {ℓ} {E A B : Type ℓ} where
  pub >>=-eq-ok :
      (m : Result E A) {f : A → Result E B} {b : B}
      → (m >>= f) ≡ ok b
      → (a : A) × (m ≡ ok a) × (f a ≡ ok b)
  >>=-eq-ok (ok a) h = (a, refl, h)
  >>=-eq-ok (err e) h = cc

  pub ok_or-eq-ok :
      (o : Option A) (e : E) {f : A → Result E B} {b : B}
      → (ok_or o e >>= f) ≡ ok b
      → (a : A) × (o ≡ some a) × (f a ≡ ok b)
  ok_or-eq-ok none e h = cc
  ok_or-eq-ok (some a) e h = (a, refl, h)

module _ {ℓ κ} {E A B : Type ℓ} {P : Type κ} where
  -- To reason from a successful `do` block, one step at a time.
  pub ok_bind :
      (m : Result E A) {f : A → Result E B} {b : B}
      → (m >>= f) ≡ ok b
      → ((a : A) → m ≡ ok a → f a ≡ ok b → P)
      → P
  ok_bind (ok a) h go = go a refl h
  ok_bind (err e) h go = absurd (cc)

  pub ok_some :
      (o : Option A) (e : E) {f : A → Result E B} {b : B}
      → (ok_or o e >>= f) ≡ ok b
      → ((a : A) → o ≡ some a → f a ≡ ok b → P)
      → P
  ok_some none e h go = absurd (cc)
  ok_some (some a) e h go = go a refl h

module _ {ℓ κ} {E B : Type ℓ} {P : Type κ} where
  pub ok_guarded :
      (checks : List (Bool × E)) {k : Result E B} {b : B}
      → (guarded checks (ok (tt {ℓ})) >> k) ≡ ok b
      → (Passes checks → k ≡ ok b → P)
      → P
  ok_guarded [] h go = go tt h
  ok_guarded ((true, e) ∷ checks) h go = absurd (cc)
  ok_guarded ((false, e) ∷ checks) h go = ok_guarded checks h λ p last. go (refl, p) last

-- The first condition of a run that was met, and its error.
abbrev pub FirstMet : {E : Type 0} → List (Bool × E) → E → Type 0
FirstMet [] x = ⊥
FirstMet ((c, e) ∷ checks) x = ((c ≡ true) × (e ≡ x)) ⊎ ((c ≡ false) × FirstMet checks x)

pub guarded-eq-err :
    {E A : Type 0} (checks : List (Bool × E)) (a : A) {x : E}
    → guarded checks (ok a) ≡ err x
    → FirstMet checks x
guarded-eq-err [] a h = absurd (cc h)
guarded-eq-err ((true, e) ∷ checks) a h = inl (refl, cc h)
guarded-eq-err ((false, e) ∷ checks) a h = inr (refl, guarded-eq-err checks a h)
