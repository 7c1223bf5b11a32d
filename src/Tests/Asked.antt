-- ===== src/Tests/Asked.antt =====
-- A check of a stored row by one who sent it and by a stranger.
use pombo_storage_node.Base.{◌≡◌, ◌⊎◌, refl, false, List, [], ◌∷◌, map, All}
use pombo_storage_node.Base.Text.{Text, codes}
use pombo_storage_node.Base.Number.{Number, int}
use pombo_storage_node.Storage.PurgeEndpoint.{PurgeTarget, is_author}
use pombo_storage_node.Storage.IngestValidator.{get_message_signer}
use pombo_storage_node.Utils.EthereumAddress.{to_lower_case, to_ethereum_address, is_address}
use pombo_storage_node.Storage.StoredEndpoint.{StoredResult, absent, stored_results, handler}
use pombo_storage_node.Storage.StoredEndpoint.Entitled.{is_results, Told, handler-Told}
use pombo_storage_node.Storage.StoredEndpoint.Oracle.{Foreign, stored_results-absent}
use pombo_storage_node.Tests.Stored.{one_bucket, table, target, parsed, purge_request, before}
use pombo_storage_node.Tests.Toy.{bob, chat, recover_self, recover_alice, toy, empty_gates-Agrees}
use pombo_storage_node.Base.{list_beq}

abbrev one_bucket_between : Text → Number → List Number → List Text
one_bucket_between s p ts = codes "b1" ∷ []

handler-Told_example :
    (is_results
        (handler one_bucket one_bucket_between parsed recover_alice recover_self toy purge_request
          before).0
      ≡ false)
    ⊎ Told one_bucket one_bucket_between parsed recover_alice recover_self toy purge_request before
handler-Told_example =
    handler-Told one_bucket one_bucket_between parsed recover_alice recover_self toy purge_request
      before (empty_gates-Agrees toy)

rows_Foreign : All (Foreign parsed recover_alice bob) table
unfolding is_author get_message_signer to_ethereum_address is_address to_lower_case list_beq
rows_Foreign = ((refl, refl), ((refl, refl), tt))

stored_results-absent_example :
    stored_results one_bucket one_bucket_between parsed recover_alice chat
      (int 0)
      false
      bob
      table
      (target ∷ [])
    ≡ map {B = PurgeTarget × StoredResult} (λ t. (t, absent)) (target ∷ [])
stored_results-absent_example =
    stored_results-absent parsed recover_alice bob one_bucket one_bucket_between chat (int 0) table
      (target ∷ []) rows_Foreign
