-- ===== src/Base/Number/Decimal.antt =====
-- Decimal digits of a natural number, and that they determine it.
use Prim.Native.Nat.{ℕ, zero, suc, ◌+◌, ◌-◌, ◌*◌, ◌/◌, ◌%◌, ◌<◌}
use mathlib.Core.Path.{◌≡◌, refl, sym, ◌∙◌, ap}
use mathlib.Core.Logic.{◌≢◌, inl, inr}
use mathlib.Core.List.{[], ◌∷◌, ◌++◌}
use native.Mathlib.Omega.{arith}
use pombo_storage_node.Base.Tests.{ltb, if◌then◌else◌, Bool-cases}
use pombo_storage_node.Base.Lists.{All-append}
use pombo_storage_node.Base.Text.{Text, Lacks}

-- A number has no more digits than its successor says, so the fuel never runs out.
digits : ℕ → ℕ → Text
digits zero n = []
digits (suc fuel) n =
    let more = digits fuel (n / 10) ++ (48 + n % 10) ∷ [] in
    if ltb n 10 then (48 + n) ∷ [] else more

unfoldable pub decimal : ℕ → Text
unfolding digits
decimal n = digits (suc n) n

value : ℕ → Text → ℕ
value acc [] = acc
value acc (c ∷ s) = value (acc * 10 + (c - 48)) s

value-snoc : (acc : ℕ) (s : Text) (c : ℕ) → value acc (s ++ c ∷ []) ≡ value acc s * 10 + (c - 48)
unfolding value
value-snoc acc [] c = refl
value-snoc acc (d ∷ s) c = value-snoc (acc * 10 + (d - 48)) s c

value-digits : (fuel n : ℕ) → n < fuel → value 0 (digits fuel n) ≡ n
unfolding digits value
value-digits zero n h = absurd (omega arith)
value-digits (suc fuel) n h =
    ground (arith, value-digits fuel (n / 10), value-snoc 0 (digits fuel (n / 10)) (48 + n % 10))

pub decimal_injective : (m n : ℕ) → decimal m ≡ decimal n → m ≡ n
unfolding decimal
decimal_injective m n h =
    sym (value-digits (suc m) m (omega arith))
    ∙ ap (value 0) h
    ∙ value-digits (suc n) n (omega arith)

digits-Lacks : (c fuel n : ℕ) → c < 48 → Lacks c (digits fuel n)
unfolding digits
digits-Lacks c zero n h = tt
digits-Lacks c (suc fuel) n h = elim (Bool-cases (ltb n 10)) [
  | inl one ↦ rw one ((λ e. omega arith), tt)
  | inr more ↦
      rw more
        (All-append (λ d. d ≢ c) _ _ (digits-Lacks c fuel (n / 10) h) ((λ e. omega arith), tt))
]

pub decimal-Lacks : (c n : ℕ) → c < 48 → Lacks c (decimal n)
unfolding decimal
decimal-Lacks c n h = digits-Lacks c (suc n) n h
