-- ===== src/Utils/EthereumAddress.antt =====
-- packages/utils/src/EthereumAddress.ts. A throw is `none`.
use pombo_storage_node.Base.{
  ℕ, ◌+◌, ◌≡◌, Bool, true, false, ◌&&◌, ◌||◌, Option, none, some, [], ◌∷◌, map, leb, nat_eq,
  if◌then◌else◌, length, all, Bool-cases, inl, inr, subst, ◌≢◌, arith,
}
use mathlib.Core.Option.{some-injective}
use pombo_storage_node.Base.Text.{Text, Lacks}

abbrev is_hex_digit : ℕ → Bool
is_hex_digit c =
    (leb b'0' c && leb c b'9') || (leb b'a' c && leb c b'f') || (leb b'A' c && leb c b'F')

-- The regular expression `^0x[a-fA-F0-9]{40}$`.
unfoldable pub is_address : Text → Bool
is_address (z ∷ x ∷ digits) =
    nat_eq z b'0' && nat_eq x b'x' && nat_eq (length digits) 40 && all is_hex_digit digits
is_address _ = false

abbrev lower_unit : ℕ → ℕ
lower_unit c = if leb b'A' c && leb c b'Z' then c + 32 else c

-- `toLowerCase` of an ASCII text.
unfoldable pub to_lower_case : Text → Text
to_lower_case s = map lower_unit s

unfoldable pub to_ethereum_address : Text → Option Text
unfolding is_address to_lower_case
to_ethereum_address s = if is_address s then some (to_lower_case s) else none

lower_unit_hex : (c : ℕ) → is_hex_digit c ≡ true → lower_unit c ≢ b'_'
lower_unit_hex c h = ground arith

to_lower_case-Lacks : (s : Text) → all is_hex_digit s ≡ true → Lacks b'_' (to_lower_case s)
unfolding to_lower_case
to_lower_case-Lacks [] h = tt
to_lower_case-Lacks (c ∷ s) h =
    (lower_unit_hex c (ground arith), to_lower_case-Lacks s (ground arith))

is_address-Lacks : (s : Text) → is_address s ≡ true → Lacks b'_' (to_lower_case s)
unfolding is_address to_lower_case
is_address-Lacks [] h = cc
is_address-Lacks (z ∷ []) h = cc
is_address-Lacks (z ∷ x ∷ digits) h =
    let zero_unit : z ≡ b'0' = ground arith in
    let x_unit : x ≡ b'x' = ground arith in
    (ground arith, (ground arith, to_lower_case-Lacks digits (ground arith)))

-- An address holds no underscore.
pub to_ethereum_address-Lacks : (s a : Text) → to_ethereum_address s ≡ some a → Lacks b'_' a
unfolding to_ethereum_address
to_ethereum_address-Lacks s a h = elim (Bool-cases (is_address s)) [
  | inl valid ↦
      subst (Lacks b'_') (some-injective _ a (rw (to_ethereum_address, valid) at h))
        (is_address-Lacks s valid)
  | inr bad ↦ cc (rw (bad) at h)
]
