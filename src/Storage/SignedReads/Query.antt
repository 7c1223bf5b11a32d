-- ===== src/Storage/SignedReads/Query.antt =====
-- The query string as a client signs it. `Object.keys(query).sort()` sorts by UTF-16 code units;
-- values that are neither texts nor lists of texts are left out.
use pombo_storage_node.Base.{
  ltb, nat_eq, Bool, true, false, ◌&&◌, ◌||◌, List, [], ◌∷◌, ◌++◌, map, if◌then◌else◌,
}
use pombo_storage_node.Base.Text.{Text, join}

pub data QueryValue : Type 0 where
  one : Text → QueryValue
  many : List Text → QueryValue

unfoldable pub text_leb : Text → Text → Bool
text_leb [] t = true
text_leb (c ∷ s) [] = false
text_leb (c ∷ s) (d ∷ t) = ltb c d || (nat_eq c d && text_leb s t)

insert_sorted : Text × QueryValue → List (Text × QueryValue) → List (Text × QueryValue)
insert_sorted p [] = p ∷ []
insert_sorted (k, v) ((j, w) ∷ rest) =
    if text_leb k j then (k, v) ∷ (j, w) ∷ rest else (j, w) ∷ insert_sorted (k, v) rest

sort : List (Text × QueryValue) → List (Text × QueryValue)
unfolding insert_sorted text_leb
sort [] = []
sort (p ∷ rest) = insert_sorted p (sort rest)

-- `${key}=${String(v)}` for each value of a parameter.
pairs_of : Text × QueryValue → List Text
pairs_of (key, one v) = (key ++ (b'=' ∷ v)) ∷ []
pairs_of (key, many vs) = map (λ v. key ++ (b'=' ∷ v)) vs

flat : List (Text × QueryValue) → List Text
unfolding pairs_of
flat [] = []
flat (p ∷ rest) = pairs_of p ++ flat rest

unfoldable pub canonical_query : List (Text × QueryValue) → Text
unfolding sort flat
canonical_query query = join b'&' (flat (sort query))
