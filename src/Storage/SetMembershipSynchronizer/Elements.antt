-- ===== src/Storage/SetMembershipSynchronizer/Elements.antt =====
-- What a snapshot and a patch do to one element, and what their diffs report.
use pombo_storage_node.Base.{
  ℕ, ◌≡◌, refl, ap, inl, inr, Bool, false, not, ◌&&◌, ◌||◌, some, List, [], ◌∷◌, if◌then◌else◌, leb,
  keep, eq_list, eq_nat, arith, list_beq_iff, Bool-cases,
}
use pombo_storage_node.Base.Text.{Text}
use pombo_storage_node.Base.Members.{has, put, remove, has-put, has-remove, has-keep}
use pombo_storage_node.Base.Dict.{lookup, insert, has_key, lookup-insert, Unique, Unique-insert}
use pombo_storage_node.Storage.SetMembershipSynchronizer.{
  Diff, set_difference, SetMembershipSynchronizer, Operation, adds, removes, apply_patches,
  ingest_snapshot, is_non_stale, mark, add_each, remove_each, ingest_patch,
}

pub has-apply_patches :
    (e : Text) (patches : List (Text × ℕ)) (previous state : List Text)
    → has e (apply_patches patches previous state)
      ≡ (if has_key e patches then has e previous else has e state)
unfolding apply_patches has_key lookup
has-apply_patches e [] previous state = refl
has-apply_patches e ((element, n) ∷ patches) previous state = ground (
  arith,
  has-apply_patches e patches previous (put element state),
  has-apply_patches e patches previous (remove element state),
  has-put element e state,
  has-remove element e state,
  list_beq_iff element e,
  ap (λ x. has x previous) {x = element} {y = e},
)

pub has-add_each :
    (e : Text) (elements state : List Text)
    → has e (add_each elements state).1 ≡ (has e elements || has e state)
unfolding has add_each
has-add_each e [] state = refl
has-add_each e (element ∷ elements) state =
    ground (arith, has-add_each e elements (put element state), has-put element e state)

pub has-add_each_changed :
    (e : Text) (elements state : List Text)
    → has e (add_each elements state).0 ≡ (has e elements && not (has e state))
unfolding has add_each
has-add_each_changed e [] state = refl
has-add_each_changed e (element ∷ elements) state = ground (
  arith,
  has-add_each_changed e elements (put element state),
  has-put element e state,
  list_beq_iff element e,
  ap (λ x. has x state) {x = element} {y = e},
)

pub has-remove_each :
    (e : Text) (elements state : List Text)
    → has e (remove_each elements state).1 ≡ (not (has e elements) && has e state)
unfolding has remove_each
has-remove_each e [] state = ground arith
has-remove_each e (element ∷ elements) state =
    ground (arith, has-remove_each e elements (remove element state), has-remove element e state)

pub has-remove_each_changed :
    (e : Text) (elements state : List Text)
    → has e (remove_each elements state).0 ≡ (has e elements && has e state)
unfolding has remove_each
has-remove_each_changed e [] state = refl
has-remove_each_changed e (element ∷ elements) state = ground (
  arith,
  has-remove_each_changed e elements (remove element state),
  has-remove element e state,
  list_beq_iff element e,
  ap (λ x. has x state) {x = element} {y = e},
)

pub lookup-mark :
    (sequence_no : ℕ) (e : Text) (elements : List Text) (patches : List (Text × ℕ))
    → lookup e (mark sequence_no elements patches)
      ≡ (if has e elements then some sequence_no else lookup e patches)
unfolding mark has
lookup-mark sequence_no e [] patches = refl
lookup-mark sequence_no e (element ∷ elements) patches = ground (
  arith,
  lookup-mark sequence_no e elements (insert element sequence_no patches),
  lookup-insert element e sequence_no patches,
)

pub Unique-mark :
    (sequence_no : ℕ) (elements : List Text) (patches : List (Text × ℕ))
    → Unique patches
    → Unique (mark sequence_no elements patches)
unfolding mark
Unique-mark sequence_no [] patches h = h
Unique-mark sequence_no (element ∷ elements) patches h =
    Unique-mark sequence_no elements _ (Unique-insert element sequence_no patches h)

-- What the two kinds of messages do to a synchronizer.
pub data Event : Type 0 where
  snapshot : List Text → ℕ → Event
  patch : List Text → Operation → ℕ → Event

unfoldable pub ingest : Event → SetMembershipSynchronizer → Diff × SetMembershipSynchronizer
ingest (snapshot elements sequence_no) s = ingest_snapshot elements sequence_no s
ingest (patch elements operation sequence_no) s = ingest_patch elements operation sequence_no s

has-set_difference :
    (e : Text) (a b : List Text) → has e (set_difference a b) ≡ (has e a && not (has e b))
unfolding set_difference
has-set_difference e a b = ground (arith, has-keep (λ el. not (has el b)) e a)

unchanged : (b : Bool) → false ≡ (b && not b)
unchanged b = ground arith

-- A diff reports exactly the change: an element is added if it is in the state after the message
-- and was not before, and removed if it was in the state before the message and is not after.
pub ingest-diff :
    (ev : Event) (s : SetMembershipSynchronizer) (e : Text)
    → (has e (ingest ev s).0.added ≡ (has e (ingest ev s).1.state && not (has e s.state)))
      × (has e (ingest ev s).0.removed ≡ (has e s.state && not (has e (ingest ev s).1.state)))
unfolding ingest ingest_snapshot ingest_patch has
ingest-diff (snapshot elements sequence_no) s e =
    elim (Bool-cases (leb sequence_no s.last_snapshot_sequence_no)) [
      | inl stale ↦
          rw (ingest, ingest_snapshot, stale) (unchanged (has e s.state), unchanged (has e s.state))
      | inr current ↦
          rw (ingest, ingest_snapshot, current)
            (has-set_difference e _ s.state, has-set_difference e s.state _)
    ]
ingest-diff (patch elements adds sequence_no) s e =
    elim (Bool-cases (leb sequence_no s.last_snapshot_sequence_no)) [
      | inl stale ↦ rw (ingest_patch, stale) (unchanged (has e s.state), unchanged (has e s.state))
      | inr current ↦
          let fresh = keep (is_non_stale sequence_no s.last_sequence_no_by_element) elements in
          rw (ingest_patch, current)
            (
              ground (arith, has-add_each_changed e fresh s.state, has-add_each e fresh s.state),
              ground (arith, has-add_each e fresh s.state),
            )
    ]
ingest-diff (patch elements removes sequence_no) s e =
    elim (Bool-cases (leb sequence_no s.last_snapshot_sequence_no)) [
      | inl stale ↦ rw (ingest_patch, stale) (unchanged (has e s.state), unchanged (has e s.state))
      | inr current ↦
          let fresh = keep (is_non_stale sequence_no s.last_sequence_no_by_element) elements in
          rw (ingest_patch, current)
            (
              ground (arith, has-remove_each e fresh s.state),
              ground
                  (arith, has-remove_each_changed e fresh s.state, has-remove_each e fresh s.state),
            )
    ]
