-- ===== src/Storage/SignedRequest/Message.antt =====
-- What the text that a client signs determines, and what it does not.
use pombo_storage_node.Base.{ℕ, ◌≡◌, refl, ap, List, [], ◌∷◌, ◌++◌, All, append_assoc, arith}
use pombo_storage_node.Base.Text.{Text, codes, join, newline, Lacks, join_injective}
use pombo_storage_node.Base.Number.{Number, int, to_text, decimal_injective, decimal-Lacks}
use pombo_storage_node.Storage.SignedRequest.{create_signed_request_message}

join_regroup :
    (sep : ℕ) (s t : Text) (rest : List Text)
    → join sep (s ∷ t ∷ rest) ≡ join sep ((s ++ (sep ∷ t)) ∷ rest)
unfolding join
join_regroup sep s t [] = refl
join_regroup sep s t (u ∷ rest) = rw append_assoc

-- A line feed and a payload line at the end of the nonce give the same text as the line in the
-- payload.
pub message_regroup :
    (purpose stream_id : Text) (partition issued_at : Number) (nonce line : Text)
    (lines : List Text)
    → create_signed_request_message purpose stream_id partition issued_at nonce (line ∷ lines)
      ≡ create_signed_request_message purpose stream_id partition issued_at
          (nonce ++ (newline ∷ line))
          lines
unfolding create_signed_request_message join
message_regroup purpose stream_id partition issued_at nonce line lines =
    ap
      (λ (t : Text).
        codes "pombo-storage-node"
        ++ (newline
            ∷ (purpose
                ++ (newline
                    ∷ (stream_id
                        ++ (newline
                            ∷ (to_text partition
                                ++ (newline ∷ (to_text issued_at ++ (newline ∷ t))))))))))
      (join_regroup newline nonce line lines)

header-Lacks : Lacks newline (codes "pombo-storage-node")
header-Lacks = omega arith

-- If no field holds a line feed and the partition and the date are natural numbers, then the text
-- that is signed determines every field of the request.
pub message_injective :
    (purpose purpose' stream_id stream_id' : Text) (partition partition' issued_at issued_at' : ℕ)
    (nonce nonce' : Text) (lines lines' : List Text)
    → All (Lacks newline) (purpose ∷ stream_id ∷ nonce ∷ lines)
    → All (Lacks newline) (purpose' ∷ stream_id' ∷ nonce' ∷ lines')
    → create_signed_request_message purpose stream_id (int partition) (int issued_at) nonce lines
      ≡ create_signed_request_message purpose' stream_id'
          (int partition')
          (int issued_at')
          nonce'
          lines'
    → (purpose ≡ purpose')
      × (stream_id ≡ stream_id')
      × (partition ≡ partition')
      × (issued_at ≡ issued_at')
      × (nonce ≡ nonce')
      × (lines ≡ lines')
unfolding create_signed_request_message to_text
message_injective purpose purpose' stream_id stream_id' p p' t t' nonce nonce' lines lines' h h' e =
    let (hp, (hs, rest)) = h in
    let (hp', (hs', rest')) = h' in
    let lines_eq =
      join_injective newline _ _ _ _
        (
          header-Lacks,
          (
            hp,
            (
              hs,
              (
                decimal-Lacks newline p (omega arith),
                (decimal-Lacks newline t (omega arith), rest),
              ),
            ),
          ),
        )
        (
          header-Lacks,
          (
            hp',
            (
              hs',
              (
                decimal-Lacks newline p' (omega arith),
                (decimal-Lacks newline t' (omega arith), rest'),
              ),
            ),
          ),
        )
        e in
    (
      cc lines_eq,
      cc lines_eq,
      decimal_injective p p' (cc lines_eq),
      decimal_injective t t' (cc lines_eq),
      cc lines_eq,
      cc lines_eq,
    )
