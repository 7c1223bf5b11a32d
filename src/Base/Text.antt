-- ===== src/Base/Text.antt =====
-- Strings as JavaScript has them: sequences of UTF-16 code units.
use Prim.Native.Nat.{ℕ}
use Prim.Native.Char.{code}
use Prim.Native.String.{String}
use mathlib.Core.Path.{◌≡◌, refl, ap, sym}
use mathlib.Core.Logic.{◌≢◌}
use mathlib.Core.Bool.{Bool, ◌||◌}
use mathlib.Core.List.{List, [], ◌∷◌, ◌++◌}
use pombo_storage_node.Base.Tests.{eq_nat, eq_list, list_beq}
use pombo_storage_node.Base.Lists.{All}

abbrev pub Text : Type 0
Text = List ℕ

-- A literal of the program; each is ASCII, so a code point is a code unit.
abbrev pub codes : String → Text
codes String.[] = []
codes (String.◌∷◌ c s) = code c ∷ codes s

-- `s.endsWith(suffix)`.
unfoldable pub ends_with : Text → Text → Bool
unfolding list_beq
ends_with suffix [] = list_beq [] suffix
ends_with suffix (c ∷ s) = list_beq (c ∷ s) suffix || ends_with suffix s

-- `parts.join(separator)` for a separator of one code unit.
unfoldable pub join : ℕ → List Text → Text
join sep [] = []
join sep (part ∷ []) = part
join sep (part ∷ next ∷ rest) = part ++ (sep ∷ join sep (next ∷ rest))

abbrev pub newline : ℕ
newline = 10

abbrev pub Lacks : ℕ → Text → Type 0
Lacks c = All (λ d. d ≢ c)

tail_eq : {a b : ℕ} {s t : Text} → ◌≡◌ {A = Text} (a ∷ s) (b ∷ t) → s ≡ t
tail_eq e = cc

head_eq : {a b : ℕ} {s t : Text} → ◌≡◌ {A = Text} (a ∷ s) (b ∷ t) → a ≡ b
head_eq e = cc

-- Two texts cut at their first separator agree on both sides of it.
pub split_unique :
    (c : ℕ) (s t u v : Text)
    → Lacks c s
    → Lacks c u
    → s ++ (c ∷ t) ≡ u ++ (c ∷ v)
    → (s ≡ u) × (t ≡ v)
split_unique c [] t [] v hs hu e = (refl, tail_eq e)
split_unique c [] t (b ∷ u) v hs hu e = absurd (hu.0 (sym (head_eq e)))
split_unique c (a ∷ s) t [] v hs hu e = absurd (hs.0 (head_eq e))
split_unique c (a ∷ s) t (b ∷ u) v hs hu e =
    let (front, back) = split_unique c s t u v hs.1 hu.1 (tail_eq e) in
    (cc (head_eq e, front), back)

-- A text with no separator is no text with one.
pub no_split : (c : ℕ) (s u v : Text) → Lacks c s → s ≡ u ++ (c ∷ v) → ⊥
no_split c [] [] v h e = cc
no_split c [] (b ∷ u) v h e = cc
no_split c (a ∷ s) [] v h e = h.0 (head_eq e)
no_split c (a ∷ s) (b ∷ u) v h e = no_split c s u v h.1 (tail_eq e)

-- Joining at a separator that no part holds forgets nothing.
pub join_injective :
    (c : ℕ) (p q : Text) (ps qs : List Text)
    → All (Lacks c) (p ∷ ps)
    → All (Lacks c) (q ∷ qs)
    → join c (p ∷ ps) ≡ join c (q ∷ qs)
    → ◌≡◌ {A = List Text} (p ∷ ps) (q ∷ qs)
unfolding join
join_injective c p q [] [] hp hq e = ap (λ (t : Text). t ∷ []) e
join_injective c p q [] (q' ∷ qs) hp hq e = absurd (no_split c p q _ hp.0 e)
join_injective c p q (p' ∷ ps) [] hp hq e = absurd (no_split c q p _ hq.0 (sym e))
join_injective c p q (p' ∷ ps) (q' ∷ qs) hp hq e =
    let (front, back) = split_unique c p _ q _ hp.0 hq.0 e in
    cc (front, join_injective c p' q' ps qs hp.1 hq.1 back)
