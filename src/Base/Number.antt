-- ===== src/Base/Number.antt =====
-- JavaScript numbers, as far as the program reads them: NaN, the infinities and the integers.
-- Fractions, and the exponents that `String` writes from 10^21 on, are left out.
mod Decimal
pub use Decimal.{decimal, decimal_injective, decimal-Lacks}
use Prim.Native.Nat.{ℕ, zero, suc, ◌+◌, ◌-◌, ◌*◌}
use mathlib.Core.Path.{◌≡◌, refl, subst}
use mathlib.Core.Bool.{Bool, true, false, ◌&&◌, ◌||◌}
use mathlib.Core.Option.{Option, none, some}
use mathlib.Core.List.{List, [], ◌∷◌}
use pombo_storage_node.Base.Tests.{ltb, leb, nat_eq, if◌then◌else◌, Eq}
use native.Mathlib.Omega.{arith}
use pombo_storage_node.Base.Text.{Text, codes}

-- `below n` is the negative integer -(n + 1).
pub data Number : Type 0 where
  nan infinity minus_infinity : Number
  int : ℕ → Number
  below : ℕ → Number

-- `Math.abs(now - x) > bound`, for a clock `now`. A comparison with NaN is false.
unfoldable pub further_than : ℕ → ℕ → Number → Bool
further_than bound now nan = false
further_than bound now infinity = true
further_than bound now minus_infinity = true
further_than bound now (int x) = ltb bound (if leb x now then now - x else x - now)
further_than bound now (below x) = ltb bound (now + suc x)

-- `String(x)`.
unfoldable pub to_text : Number → Text
to_text nan = codes "NaN"
to_text infinity = codes "Infinity"
to_text minus_infinity = codes "-Infinity"
to_text (int n) = decimal n
to_text (below n) = b'-' ∷ decimal (suc n)

unfoldable pub is_nan : Number → Bool
is_nan nan = true
is_nan _ = false

-- The value of a digit in a base, if it is one.
abbrev digit : ℕ → ℕ → Option ℕ
digit base c =
    let d =
      if leb b'0' c && leb c b'9'
      then c - 48
      else if leb b'a' c && leb c b'z'
      then c - 87
      else if leb b'A' c && leb c b'Z'
      then c - 55
      else base in
    if ltb d base then some d else none

-- The digits at the front of a text: `nan` if there are none.
digits_from : ℕ → Option ℕ → Text → Option ℕ
digits_from base acc [] = acc
digits_from base acc (c ∷ s) = elim (digit base c) [
  | none ↦ acc
  | some d ↦ digits_from base (some ((elim acc [ none ↦ 0 | some n ↦ n ]) * base + d)) s
]

abbrev magnitude : Text → Option ℕ
magnitude (z ∷ x ∷ s) =
    if nat_eq z b'0' && (nat_eq x b'x' || nat_eq x b'X')
    then digits_from 16 none s
    else digits_from 10 none (z ∷ x ∷ s)
magnitude s = digits_from 10 none s

abbrev signed : Bool → Option ℕ → Number
signed negative none = nan
signed false (some n) = int n
signed true (some zero) = int 0
signed true (some (suc n)) = below n

unsigned_part : Text → Number
unfolding digits_from
unsigned_part [] = nan
unsigned_part (c ∷ s) =
    if nat_eq c b'-'
    then signed true (magnitude s)
    else if nat_eq c b'+'
    then signed false (magnitude s)
    else signed false (magnitude (c ∷ s))

abbrev is_space : ℕ → Bool
is_space c = nat_eq c 32 || (leb 9 c && leb c 13) || nat_eq c 160

-- `parseInt(s)`: leading white space, a sign, `0x` for base 16, and then as many digits as follow.
-- A negative zero is read as zero. White space is that of ASCII and the no-break space, and integers
-- above 2^53 stay exact.
unfoldable pub parse_int : Text → Number
unfolding unsigned_part
parse_int [] = nan
parse_int (c ∷ s) = let rest = parse_int s in if is_space c then rest else unsigned_part (c ∷ s)

-- Structural equality, which is `===` on the numbers other than NaN.
abbrev number_eq : Number → Number → Bool
number_eq nan nan = true
number_eq infinity infinity = true
number_eq minus_infinity minus_infinity = true
number_eq (int m) (int n) = nat_eq m n
number_eq (below m) (below n) = nat_eq m n
number_eq _ _ = false

pub number_eq_sound : (a b : Number) → number_eq a b ≡ true → a ≡ b
number_eq_sound nan b h = ground arith
number_eq_sound infinity b h = ground arith
number_eq_sound minus_infinity b h = ground arith
number_eq_sound (int m) b h = ground arith
number_eq_sound (below m) b h = ground arith

pub number_eq_refl : (a : Number) → number_eq a a ≡ true
number_eq_refl a = ground arith

instance abbrev pub eq_number : Eq Number
eq_number = record {
  equals = number_eq;
  beq_iff =
      λ a b. (number_eq_sound a b, λ h. subst (λ x. number_eq a x ≡ true) h (number_eq_refl a));
}
