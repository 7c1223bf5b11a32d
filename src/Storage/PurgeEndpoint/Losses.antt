-- ===== src/Storage/PurgeEndpoint/Losses.antt =====
-- What a table has left after deletions of packages/node/src/plugins/storage/purgeEndpoint.ts, where one
-- may fail.
use pombo_storage_node.Base.{
  ℕ, zero, suc, ◌≡◌, refl, sym, ◌∙◌, inl, inr, Bool, true, false, ◌&&◌, ◌||◌, not, List, [], ◌∷◌,
  length, keep, All, All-of, keep-keep, keep_every, arith, Bool-cases,
}
use pombo_storage_node.Base.Text.{Text}
use pombo_storage_node.Base.Number.{Number}
use pombo_storage_node.Storage.PurgeEndpoint.{
  StoredRow, PurgeTarget, addresses, delete_message, delete_messages, delete_until,
}
use pombo_storage_node.Storage.PurgeEndpoint.Rows.{at, addresses-matches}

pub keep_none :
    {A : Type 0} (p : A → Bool) (xs : List A)
    → length (keep p xs) ≡ 0
    → keep (λ x. not (p x)) xs ≡ xs
keep_none p [] h = refl
keep_none p (x ∷ xs) h = ground (arith, keep_none p xs)

pub keep-All : {A : Type 0} (p : A → Bool) (xs : List A) → All (λ x. p x ≡ true) (keep p xs)
keep-All p [] = tt
keep-All p (x ∷ xs) = elim (Bool-cases (p x)) [
  | inl passed ↦ rw passed (passed, keep-All p xs)
  | inr failed ↦ rw failed (keep-All p xs)
]

-- What is left of a table has lost only rows that pass a test.
abbrev pub LosesOnly : (StoredRow → Bool) → List StoredRow → List StoredRow → Type 0
LosesOnly p table left =
    (stays : StoredRow → Bool) × (left ≡ keep stays table)
    × ((row : StoredRow) → stays row ≡ false → p row ≡ true)

pub LosesOnly_nothing : (p : StoredRow → Bool) (table : List StoredRow) → LosesOnly p table table
LosesOnly_nothing p table = (
  λ row. true,
  sym (keep_every (λ row. true) table (All-of (λ row. true ≡ true) (λ row. refl) table)),
  λ row gone. absurd cc,
)

pub LosesOnly_after :
    (p : StoredRow → Bool) (stays : StoredRow → Bool) (table left : List StoredRow)
    → ((row : StoredRow) → stays row ≡ false → p row ≡ true)
    → LosesOnly (λ row. not (stays row) || p row) (keep stays table) left
    → LosesOnly p table left
LosesOnly_after p stays table left lost (later, same, rest) = (
  λ row. stays row && later row,
  same ∙ keep-keep later stays table,
  λ row gone. elim (Bool-cases (stays row)) [
    | inr out ↦ lost row out
    | inl in_it ↦ let last = rest row (rw in_it at gone) in rw in_it at last
  ],
)

pub delete_until_ended :
    (stream_id : Text) (partition : Number) (n : ℕ) (rows table : List StoredRow)
    → (delete_until stream_id partition n rows table).0 ≡ true
    → (delete_until stream_id partition n rows table).1
      ≡ delete_messages stream_id partition rows table
unfolding delete_until delete_messages
delete_until_ended stream_id partition n [] table h = refl
delete_until_ended stream_id partition zero (row ∷ rows) table h = absurd cc
delete_until_ended stream_id partition (suc n) (row ∷ rows) table h =
    delete_until_ended stream_id partition n rows (delete_message stream_id partition row table) h

-- Deletions of rows at a target remove only such rows, wherever they break off.
pub delete_until-LosesOnly :
    (buckets_by_timestamp : Text → Number → Number → List Text) (stream_id : Text)
    (partition : Number) (target : PurgeTarget) (n : ℕ) (rows table : List StoredRow)
    → All (λ row. at buckets_by_timestamp stream_id partition target row ≡ true) rows
    → LosesOnly
        (at buckets_by_timestamp stream_id partition target)
        table
        (delete_until stream_id partition n rows table).1
unfolding delete_until delete_message
delete_until-LosesOnly b stream_id partition target n [] table h =
    LosesOnly_nothing (at b stream_id partition target) table
delete_until-LosesOnly b stream_id partition target zero (row ∷ rows) table h =
    LosesOnly_nothing (at b stream_id partition target) table
delete_until-LosesOnly b stream_id partition target (suc n) (row ∷ rows) table (first, h) =
    let stays = λ (other : StoredRow). not (addresses stream_id partition row other) in
    let (later, same, rest) =
      delete_until-LosesOnly b stream_id partition target n rows (keep stays table) h in
    LosesOnly_after (at b stream_id partition target) stays table
      (delete_until stream_id partition n rows (keep stays table)).1
      (λ other gone.
        addresses-matches b stream_id partition target row other (ground (arith, gone)) first)
      (later, same, λ other gone. ground (arith, rest other gone))
