-- ===== src/Base/Decimal.antt =====
-- `printf`'s "%i" and the decimal digits that `strtol` and `scanf` read.
use Prim.Native.Nat.{ℕ, zero, suc, ◌≤◌, ◌+◌, ◌-◌, ◌*◌, ◌/◌, ◌%◌, ◌<◌}
use Prim.Native.Char.{code}
use Prim.Native.String.{String}
use mathlib.Core.Path.{◌≡◌, ap, ◌∙◌}
use mathlib.Core.Logic.{inl, inr}
use mathlib.Core.Bool.{Bool, ◌&&◌}
use mathlib.Core.List.{List, [], ◌∷◌, ◌++◌, append_assoc}
use native.Mathlib.Omega.{arith}
use repmgr.Base.Tests.{ltb, leb, if◌then◌else◌, Bool-cases, ltb→lt}
use repmgr.Base.Lists.{length, All, All-append, length-append}
use repmgr.Base.Int.{ℤ, pos, negsuc}

abbrev pub is_digit : ℕ → Bool
is_digit c = leb b'0' c && leb c b'9'

-- The decimal digits of a number below the fuel.
show_digits : ℕ → ℕ → List ℕ
show_digits zero n = []
show_digits (suc f) n =
    let high = show_digits f (n / 10) in
    if ltb n 10 then (48 + n) ∷ [] else high ++ (48 + n % 10) ∷ []

unfoldable pub show_nat : ℕ → List ℕ
unfolding show_digits
show_nat n = show_digits (suc n) n

unfoldable pub show_int : ℤ → List ℕ
unfolding show_nat
show_int (pos n) = show_nat n
show_int (negsuc n) = b'-' ∷ show_nat (suc n)

-- The value of the longest prefix of digits, added on to `acc`, and what follows it.
unfoldable pub read_digits : ℕ → List ℕ → ℕ × List ℕ
read_digits acc [] = (acc, [])
read_digits acc (c ∷ cs) =
    let rest = read_digits (acc * 10 + (c - 48)) cs in if is_digit c then rest else (acc, c ∷ cs)

read_digits-step :
    (acc d : ℕ) (rest : List ℕ)
    → d < 10
    → read_digits acc ((48 + d) ∷ rest) ≡ read_digits (acc * 10 + d) rest
unfolding read_digits
read_digits-step acc d rest h = ground arith

read_digits-show_digits :
    (f n : ℕ) (rest : List ℕ) → n < f → read_digits 0 (show_digits f n ++ rest) ≡ read_digits n rest
unfolding show_digits
read_digits-show_digits zero n rest h = elim h [ ]
read_digits-show_digits (suc f) n rest h = elim (Bool-cases (ltb n 10)) [
  | inl small ↦
      rw small
        (read_digits-step 0 n rest (ltb→lt n 10 small) ∙ ap (λ m. read_digits m rest) (omega arith))
  | inr large ↦
      rw (large, append_assoc)
        (read_digits-show_digits f (n / 10) ((48 + n % 10) ∷ rest) (ground arith)
          ∙ read_digits-step (n / 10) (n % 10) rest (omega arith)
          ∙ ap (λ m. read_digits m rest) (omega arith))
]

-- Reading back what was printed, whatever follows.
pub read_digits-show_nat :
    (n : ℕ) (rest : List ℕ) → read_digits 0 (show_nat n ++ rest) ≡ read_digits n rest
unfolding show_nat
read_digits-show_nat n rest = read_digits-show_digits (suc n) n rest (omega arith)

-- The bytes of an ASCII text.
abbrev pub codes : String → List ℕ
codes String.[] = []
codes (String.◌∷◌ c s) = code c ∷ codes s

abbrev pub Digit : ℕ → Type 0
Digit c = (47 < c) × (c < 58)

-- The text begins with a digit other than 0 and goes on in digits.
abbrev pub Numeral : List ℕ → Type 0
Numeral [] = ⊥
Numeral (c ∷ cs) = (48 < c) × (c < 58) × All Digit cs

Numeral-append : (xs : List ℕ) (d : ℕ) → Numeral xs → Digit d → Numeral (xs ++ d ∷ [])
Numeral-append [] d h p = absurd h
Numeral-append (c ∷ cs) d (lo, hi, rest) p = (lo, hi, All-append Digit cs (d ∷ []) rest (p, tt))

show_digits-Numeral : (f n : ℕ) → 0 < n → n < f → Numeral (show_digits f n)
unfolding show_digits
show_digits-Numeral zero n p h = elim h [ ]
show_digits-Numeral (suc f) n p h = elim (Bool-cases (ltb n 10)) [
  | inl small ↦ rw small (ground arith, ground arith, tt)
  | inr large ↦ rw large (
      Numeral-append (show_digits f (n / 10)) (48 + n % 10)
        (show_digits-Numeral f (n / 10) (ground arith) (ground arith)) (omega arith))
]

pub show_nat-Numeral : (n : ℕ) → 0 < n → Numeral (show_nat n)
unfolding show_nat
show_nat-Numeral n p = show_digits-Numeral (suc n) n p (omega arith)

abbrev pub ten_to : ℕ → ℕ
ten_to zero = 1
ten_to (suc k) = 10 * ten_to k

length-show_digits-le : (k f n : ℕ) → n < ten_to k → length (show_digits f n) ≤ suc k
unfolding show_digits
length-show_digits-le k zero n h = omega arith
length-show_digits-le zero (suc f) n h = ground arith
length-show_digits-le (suc k) (suc f) n h = ground (
  arith,
  length-show_digits-le k f (n / 10),
  length-append (show_digits f (n / 10)) ((48 + n % 10) ∷ []),
)

-- A number below 10 to the `k` has about `k` digits.
pub length-show_nat-le : (k n : ℕ) → n < ten_to k → length (show_nat n) ≤ suc k
unfolding show_nat
length-show_nat-le k n h = length-show_digits-le k (suc n) n h
