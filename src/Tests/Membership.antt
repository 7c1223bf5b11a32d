-- ===== src/Tests/Membership.antt =====
-- A snapshot and patches that come out of order.
use pombo_storage_node.Base.{◌≡◌, false, ◌&&◌, not, List, [], ◌∷◌, eq_list, eq_nat, list_beq, refl}
use pombo_storage_node.Base.Dict.{lookup, insert}
use pombo_storage_node.Base.Members.{has, put, remove}
use pombo_storage_node.Storage.SetMembershipSynchronizer.{
  adds, removes, empty, ingest_snapshot, ingest_patch, later_patches, apply_patches, is_non_stale,
  mark, add_each, remove_each,
}
use pombo_storage_node.Storage.SetMembershipSynchronizer.Elements.{
  Event, snapshot, patch, ingest, ingest-diff,
}
use pombo_storage_node.Storage.SetMembershipSynchronizer.Newest.{Newest, ingest_all}
use pombo_storage_node.Tests.Toy.{chat}

-- The newest arrival first: the snapshot is older than the removal that came before it.
abbrev arrivals : List Event
arrivals = snapshot (chat ∷ []) 5 ∷ patch (chat ∷ []) removes 7 ∷ patch (chat ∷ []) adds 3 ∷ []

removed_for_good : has chat (ingest_all arrivals).state ≡ false
unfolding ingest_all ingest ingest_snapshot ingest_patch later_patches apply_patches is_non_stale
    mark add_each remove_each has put remove lookup insert list_beq
removed_for_good = refl

ingest-diff_example :
    (has chat (ingest (snapshot (chat ∷ []) 5) empty).0.added
      ≡ (has chat (ingest (snapshot (chat ∷ []) 5) empty).1.state && not (has chat empty.state)))
    × (has chat (ingest (snapshot (chat ∷ []) 5) empty).0.removed
        ≡ (has chat empty.state && not (has chat (ingest (snapshot (chat ∷ []) 5) empty).1.state)))
ingest-diff_example = ingest-diff (snapshot (chat ∷ []) 5) empty chat
