-- ===== src/Sequencer/Envelope/Layout.antt =====
-- Bytes laid out one field after another (`Envelope::encode`, crates/sequencer/src/envelope.rs).
use lighter_integration.Base.{
  ℕ, zero, suc, ◌+◌, ◌-◌, ◌*◌, ◌/◌, ◌%◌, ◌^◌, ◌<◌, ◌≤◌, ◌≡◌, refl, ap, ◌∙◌, Bytes, List, [], ◌∷◌,
  ◌++◌, length, take, drop, arith, length-append, false, replicate, bytes_eq_refl, get_elem?, some,
  ok, ltb,
}
use native.Mathlib.Nat.{pow-suc}
use mathlib.Core.List.{append-nil}
use lighter_integration.Plugin.Canonical.{to_be_bytes}
use lighter_integration.Plugin.Canonical.Reading.{length-to_be_bytes}
use lighter_integration.Plugin.Binding.{from_be_bytes}
use lighter_integration.Sequencer.Envelope.Decode.{slice, byte_at, number_at, any_nonzero}

from_be_bytes-append :
    (acc : ℕ) (a b : Bytes) → from_be_bytes acc (a ++ b) ≡ from_be_bytes (from_be_bytes acc a) b
unfolding from_be_bytes
from_be_bytes-append acc [] b = refl
from_be_bytes-append acc (x ∷ a) b = from_be_bytes-append (acc * 256 + x) a b

pub from_be_bytes-to_be_bytes : (w n : ℕ) → n < 256 ^ w → from_be_bytes 0 (to_be_bytes w n) ≡ n
unfolding from_be_bytes to_be_bytes
from_be_bytes-to_be_bytes zero n h = omega arith
from_be_bytes-to_be_bytes (suc w) n h =
    let high = from_be_bytes-to_be_bytes w (n / 256) (omega (arith, pow-suc 256 w)) in
    from_be_bytes-append 0 (to_be_bytes w (n / 256)) ((n % 256) ∷ []) ∙ omega (arith, high)

-- The fields, one after another.
unfoldable pub laid : List Bytes → Bytes
laid [] = []
laid (p ∷ ps) = p ++ laid ps

-- Where the field after the first `i` starts.
unfoldable pub offset : ℕ → List Bytes → ℕ
offset zero ps = 0
offset (suc i) [] = 0
offset (suc i) (p ∷ ps) = length p + offset i ps

unfoldable pub field : ℕ → List Bytes → Bytes
field i [] = []
field zero (p ∷ ps) = p
field (suc i) (p ∷ ps) = field i ps

drop-append : (a b : Bytes) (m n : ℕ) → m ≡ length a + n → drop m (a ++ b) ≡ drop n b
drop-append [] b m n h = ap (λ (k : ℕ). drop k b) (omega arith)
drop-append (x ∷ a) b zero n h = absurd (omega arith)
drop-append (x ∷ a) b (suc m) n h = drop-append a b m n (omega arith)

take-append : (a b : Bytes) → take (length a) (a ++ b) ≡ a
take-append [] b = refl
take-append (x ∷ a) b = ap (λ (t : Bytes). x ∷ t) (take-append a b)

field_at :
    (i : ℕ) (ps : List Bytes) (from n : ℕ)
    → from ≡ offset i ps
    → n ≡ length (field i ps)
    → take n (drop from (laid ps)) ≡ field i ps
unfolding laid offset field
field_at zero [] from n h hn = rw hn refl
field_at (suc i) [] from n h hn = rw hn refl
field_at zero (p ∷ ps) from n h hn = rw h rw hn (take-append p (laid ps))
field_at (suc i) (p ∷ ps) from n h hn =
    rw (drop-append p (laid ps) from (offset i ps) h) (field_at i ps (offset i ps) n refl hn)

offset_room : (i : ℕ) (ps : List Bytes) → offset i ps + length (field i ps) ≤ length (laid ps)
unfolding laid offset field
offset_room zero [] = omega arith
offset_room (suc i) [] = omega arith
offset_room zero (p ∷ ps) = omega (arith, length-append p (laid ps))
offset_room (suc i) (p ∷ ps) = omega (arith, length-append p (laid ps), offset_room i ps)

pub slice-laid :
    (i : ℕ) (ps : List Bytes) (from to : ℕ)
    → from ≡ offset i ps
    → to ≡ from + length (field i ps)
    → slice (laid ps) from to ≡ ok (field i ps)
unfolding slice
slice-laid i ps from to h hto =
    let room : ltb (length (laid ps)) to ≡ false = ground (arith, offset_room i ps) in
    rw room (ap (λ (b : Bytes). ok b) (field_at i ps from (to - from) h (omega arith)))

pub number_at-laid :
    (i : ℕ) (ps : List Bytes) (from to w n : ℕ)
    → n < 256 ^ w
    → from ≡ offset i ps
    → to ≡ from + w
    → field i ps ≡ to_be_bytes w n
    → number_at (laid ps) from to ≡ ok n
unfolding number_at
number_at-laid i ps from to w n small h hto same =
    rw
      (slice-laid i ps from to h
        (omega (arith, length-to_be_bytes w n, ap (λ (b : Bytes). length b) same)))
      rw same (ap (λ (k : ℕ). ok k) (from_be_bytes-to_be_bytes w n small))

get_elem?-drop :
    (bytes : Bytes) (i x : ℕ) → take 1 (drop i bytes) ≡ x ∷ [] → get_elem? bytes i ≡ some x
get_elem?-drop [] zero x h = absurd cc
get_elem?-drop [] (suc i) x h = absurd cc
get_elem?-drop (y ∷ bytes) zero x h = cc
get_elem?-drop (y ∷ bytes) (suc i) x h = get_elem?-drop bytes i x h

pub byte_at-laid :
    (i : ℕ) (ps : List Bytes) (at x : ℕ)
    → at ≡ offset i ps
    → field i ps ≡ x ∷ []
    → byte_at (laid ps) at ≡ ok x
unfolding byte_at
byte_at-laid i ps at x h same =
    rw (get_elem?-drop (laid ps) at x (field_at i ps at 1 h (rw same refl) ∙ same)) refl

pub length-laid : (ps : List Bytes) → length (laid ps) ≡ offset (length ps) ps
unfolding laid offset
length-laid [] = refl
length-laid (p ∷ ps) = omega (arith, length-append p (laid ps), length-laid ps)

pub drop-laid :
    (i : ℕ) (ps : List Bytes) (from : ℕ)
    → from ≡ offset i ps
    → drop from (laid ps) ≡ laid (drop i ps)
unfolding laid offset
drop-laid zero ps from h = rw h refl
drop-laid (suc i) [] from h = rw h refl
drop-laid (suc i) (p ∷ ps) from h =
    rw (drop-append p (laid ps) from (offset i ps) h) (drop-laid i ps (offset i ps) refl)

pub length-replicate : (n x : ℕ) → length (replicate n x) ≡ n
length-replicate zero x = refl
length-replicate (suc n) x = omega (arith, length-replicate n x)

pub zeros_pass : (n : ℕ) → any_nonzero (replicate n 0) ≡ false
unfolding any_nonzero
zeros_pass n = rw (length-replicate n 0) rw (bytes_eq_refl (replicate n 0)) refl

pub laid_one : (p : Bytes) → laid (p ∷ []) ≡ p
unfolding laid
laid_one p = append-nil p
