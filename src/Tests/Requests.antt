-- ===== src/Tests/Requests.antt =====
-- Signed requests: one that is accepted, and what can be done with it.
use pombo_storage_node.Base.{
  ◌+◌, ◌≡◌, ◌≢◌, refl, false, [], ◌∷◌, ◌++◌, ok, err, arith, list_beq, All, eq_list, eq_nat,
}
use pombo_storage_node.Base.Text.{Text, codes, newline, Lacks}
use pombo_storage_node.Base.Dict.{lookup, insert, has_key}
use pombo_storage_node.Base.Number.{int, nan, further_than}
use pombo_storage_node.Utils.MapWithTtl.{set, has}
use pombo_storage_node.Utils.EthereumAddress.{is_address, to_lower_case, to_ethereum_address}
use pombo_storage_node.Storage.SignedRequest.{
  Claimed, string, number, is_envelope, nonce_key, signer_of, use_nonce, verify_envelope, verify,
  not_the_user,
}
use pombo_storage_node.Storage.SignedRequest.Message.{message_injective}
use pombo_storage_node.Storage.SignedRequest.Replay.{run, timer, step, verify-run-verify}
use pombo_storage_node.Storage.SignedRequest.Loopholes.{verify-nan_again, verify-regroup_again}
use pombo_storage_node.Tests.Toy.{
  alice, bob, chat, nonce, start_time, recover_self, empty_verifier, claim_of,
}

abbrev line : Text
line = codes "7:0"

accepts_alice :
    (verify recover_self start_time empty_verifier
      (claim_of alice)
      (codes "purge")
      chat
      (int 0)
      (line ∷ [])).0
    ≡ ok alice
unfolding verify is_envelope verify_envelope further_than signer_of to_ethereum_address is_address
    to_lower_case use_nonce has has_key lookup list_beq
accepts_alice = refl

refuses_another_signer :
    (verify recover_self start_time empty_verifier
      (record (claim_of alice) { signature = string bob })
      (codes "purge")
      chat
      (int 0)
      []).0
    ≡ err not_the_user
unfolding verify is_envelope verify_envelope further_than signer_of to_ethereum_address is_address
    to_lower_case list_beq
refuses_another_signer = refl

verify-run-verify_example :
    (verify recover_self
      (start_time + 5)
      (run recover_self
        (timer (start_time + 2) (codes "x") ∷ [])
        (verify recover_self start_time empty_verifier
          (claim_of alice)
          (codes "purge")
          chat
          (int 0)
          (line ∷ [])).1)
      (claim_of alice)
      (codes "stored")
      chat
      (int 1)
      []).0
    ≢ ok alice
verify-run-verify_example =
    verify-run-verify recover_self start_time (start_time + 5) start_time empty_verifier
      (claim_of alice) alice alice (codes "purge") (codes "stored") chat chat (int 0) (int 1)
      (line ∷ []) [] (timer (start_time + 2) (codes "x") ∷ []) refl (omega arith) accepts_alice
      ((omega arith, omega arith), tt)

message_injective_example :
    (codes "purge" ≡ codes "purge")
    × (chat ≡ chat)
    × (start_time ≡ start_time)
    × (start_time ≡ start_time)
    × (nonce ≡ nonce)
    × ((line ∷ []) ≡ (line ∷ []))
message_injective_example =
    message_injective (codes "purge") (codes "purge") chat chat start_time start_time start_time
      start_time nonce nonce (line ∷ []) (line ∷ []) lines_Lack lines_Lack refl
  where
    lines_Lack : All (Lacks newline) (codes "purge" ∷ chat ∷ nonce ∷ line ∷ [])
    lines_Lack = (omega arith, (omega arith, (omega arith, (omega arith, tt))))

abbrev undated : Claimed
undated = record (claim_of alice) { issued_at = number nan }

accepts_undated :
    (verify recover_self start_time empty_verifier undated
      (codes "purge")
      chat
      (int 0)
      (line ∷ [])).0
    ≡ ok alice
unfolding verify is_envelope verify_envelope further_than signer_of to_ethereum_address is_address
    to_lower_case use_nonce has has_key lookup list_beq
accepts_undated = refl

verify-nan_again_example :
    (again : Text) × (undated.nonce ≡ string again)
    × ((verify recover_self 90000000
          (step recover_self
            (timer 90000000 (nonce_key alice again))
            (verify recover_self start_time empty_verifier undated
              (codes "purge")
              chat
              (int 0)
              (line ∷ [])).1)
          undated
          (codes "purge")
          chat
          (int 0)
          (line ∷ [])).0
        ≡ ok alice)
verify-nan_again_example =
    verify-nan_again recover_self start_time 90000000 empty_verifier undated alice (codes "purge")
      chat (int 0) (line ∷ []) refl (omega arith) accepts_undated

unseen :
    has
      (nonce_key alice (nonce ++ (newline ∷ line)))
      (verify recover_self start_time empty_verifier
        (claim_of alice)
        (codes "purge")
        chat
        (int 0)
        (line ∷ [])).1.seen_nonces
    ≡ false
unfolding verify is_envelope verify_envelope further_than signer_of to_ethereum_address is_address
    to_lower_case use_nonce has has_key lookup list_beq set insert nonce_key
unseen = refl

verify-regroup_again_example :
    (verify recover_self start_time
      (verify recover_self start_time empty_verifier
        (claim_of alice)
        (codes "purge")
        chat
        (int 0)
        (line ∷ [])).1
      (record (claim_of alice) { nonce = string (nonce ++ (newline ∷ line)) })
      (codes "purge")
      chat
      (int 0)
      []).0
    ≡ ok alice
verify-regroup_again_example =
    verify-regroup_again recover_self start_time empty_verifier (claim_of alice) alice
      (codes "purge") chat nonce line (int 0) [] refl (omega arith) unseen accepts_alice
