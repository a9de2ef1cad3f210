-- ===== src/Common/ByteStrings.antt =====
-- Byte strings (`Uint8Array`, and texts of ASCII characters) as lists of numbers.
use Prim.Native.Nat.{ℕ, ◌<◌}
use Prim.Native.Char.{code}
use Prim.Native.String.{String}
use mathlib.Core.Path.{◌≡◌, refl, ap}
use mathlib.Core.Logic.{◌↔◌}
use mathlib.Core.Bool.{Bool, true, false, ◌&&◌, and-eq-true_iff}
use mathlib.Core.List.{List, [], ◌∷◌, ◌++◌}
use native.Mathlib.Omega.{arith}
use native.Mathlib.Decide.{ℕ_discrete}
use dnsid_ts.Common.Tests.{◌==◌, ==_iff}
use dnsid_ts.Common.Lists.{length, length-append}

abbrev pub Bytes : Type 0
Bytes = List ℕ

abbrev pub IsByte : ℕ → Type 0
IsByte b = b < 256

-- The code points of a text.
abbrev pub codes : String → Bytes
codes String.[] = []
codes (String.◌∷◌ c s) = code c ∷ codes s

-- `Buffer.equals`, and `===` on texts.
unfoldable pub bytes_eq : Bytes → Bytes → Bool
bytes_eq [] [] = true
bytes_eq (x ∷ xs) (y ∷ ys) = (x == y) && bytes_eq xs ys
bytes_eq _ _ = false

pub bytes_eq_sound : (xs ys : Bytes) → bytes_eq xs ys ≡ true → xs ≡ ys
unfolding bytes_eq
bytes_eq_sound [] [] h = refl
bytes_eq_sound (x ∷ xs) (y ∷ ys) h =
    let both : ((x == y) ≡ true) × (bytes_eq xs ys ≡ true) = (and-eq-true_iff _ _).0 h in
    cc ((==_iff x y).0 both.0, bytes_eq_sound xs ys both.1)
bytes_eq_sound [] (y ∷ ys) h = cc
bytes_eq_sound (x ∷ xs) [] h = cc

pub bytes_eq_refl : (xs : Bytes) → bytes_eq xs xs ≡ true
unfolding bytes_eq
bytes_eq_refl [] = refl
bytes_eq_refl (x ∷ xs) = ground (arith, bytes_eq_refl xs)

pub bytes_eq_iff : (xs ys : Bytes) → (bytes_eq xs ys ≡ true) ↔ (xs ≡ ys)
bytes_eq_iff xs ys = (bytes_eq_sound xs ys, λ e. rw e (bytes_eq_refl ys))

pub Bytes-discrete : Discrete Bytes
Bytes-discrete = hlevel ℕ_discrete

-- Two concatenations whose last parts have one length.
pub append_injective :
    (xs ys us vs : Bytes) → length us ≡ length vs → xs ++ us ≡ ys ++ vs → (xs ≡ ys) × (us ≡ vs)
append_injective [] [] us vs l e = (refl, e)
append_injective [] (y ∷ ys) us vs l e = absurd (omega (arith, ap length e, length-append ys vs))
append_injective (x ∷ xs) [] us vs l e = absurd (omega (arith, ap length e, length-append xs us))
append_injective (x ∷ xs) (y ∷ ys) us vs l e =
    let (p, q) = append_injective xs ys us vs l (cc) in (cc, q)
