-- ===== src/Sdk/OrderedMessageChain/Chained.antt =====
-- What packages/sdk/src/subscribe/ordering/OrderedMessageChain.ts emits, over any calls on a new chain.
use pombo_storage_node.Base.{
  ◌≡◌, ◌≢◌, refl, sym, ◌∙◌, ap, inl, inr, Bool, true, false, Option, none, some, List, [], ◌∷◌,
  ◌++◌, append_assoc, All, arith, Bool-cases, Option-cases, subst,
}
use mathlib.Core.Option.{some-injective}
use pombo_storage_node.Utils.Heap.{is_lt, push, contains}
use pombo_storage_node.Utils.Heap.Order.{IsOrder, Ascending, All-push, push-Ascending}
use pombo_storage_node.Sdk.OrderedMessageChain.{
  MessageRef, compare_to, compare_messages, StreamMessage, Gap, Event, ordered_message_added,
  gap_found, gap_resolved, unfillable_gap, are_equal_refs, OrderedMessageChain, new_chain,
  is_next_ordered_message, is_stale_message, next_only, up_to, check_gap_resolved, check_gap_found,
  consume, consume_pending, add_message, resolve_messages,
}

pub compare_messages-IsOrder : IsOrder compare_messages
unfolding compare_to
compare_messages-IsOrder = record {
  lt_trans = λ a b c h k. ground (arith, h, k);
  lt_eq_trans = λ a b c h k. ground (arith, h, k);
  total = λ a b h k. ground (arith, h, k);
}

abbrev After : Option StreamMessage → StreamMessage → Type 0
After none m = Unit
After (some l) m = is_lt (compare_messages l m) ≡ true

abbrev has : Option Gap → Bool
has none = false
has (some gap) = true

-- Events that may follow, given the last message and whether a gap is open: messages come in
-- ascending order, a gap is found only where none is open and resolved only where one is, and a gap
-- is told with the last message before it.
abbrev pub Fine : Option StreamMessage → Bool → List Event → Type 0
Fine last open_gap [] = Unit
Fine last open_gap (ordered_message_added m ∷ es) = After last m × Fine (some m) open_gap es
Fine last open_gap (gap_found gap ∷ es) =
    (open_gap ≡ false) × (gap.from ≡ last) × (last ≢ none) × Fine last true es
Fine last open_gap (gap_resolved ∷ es) = (open_gap ≡ true) × Fine last false es
Fine last open_gap (unfillable_gap gap ∷ es) =
    (gap.from ≡ last) × (last ≢ none) × Fine last open_gap es

-- The pending messages ascend and come after the last one, and there are none before the first.
abbrev IsValid : OrderedMessageChain → Type 0
IsValid c =
    Ascending compare_messages c.pending_msgs
    × All (After c.last_ordered_msg) c.pending_msgs
    × (c.last_ordered_msg ≡ none → c.pending_msgs ≡ [])

-- What a call emits may be followed by what may follow afterwards.
abbrev Emits : OrderedMessageChain → List Event × OrderedMessageChain → Type 0
Emits c (es, c') =
    IsValid c'
    × ((rest : List Event)
        → Fine c'.last_ordered_msg (has c'.current_gap) rest
        → Fine c.last_ordered_msg (has c.current_gap) (es ++ rest))

abbrev Test : Type 0
Test = Option StreamMessage → StreamMessage → Option (List Event)

-- A test that lets the first message pass and emits what may be emitted.
abbrev Sound : Test → Type 0
Sound is_consumable =
    ((p : StreamMessage) → is_consumable none p ≢ none)
    × ((last : Option StreamMessage) (p : StreamMessage) (es : List Event)
        → is_consumable last p ≡ some es
        → (open_gap : Bool) (rest : List Event) → Fine last open_gap rest
        → Fine last open_gap (es ++ rest))

check_gap_resolved-Fine :
    (p : StreamMessage) (gap : Option Gap) (rest : List Event)
    → Fine (some p) (has (check_gap_resolved p gap).1) rest
    → Fine (some p) (has gap) ((check_gap_resolved p gap).0 ++ rest)
unfolding check_gap_resolved
check_gap_resolved-Fine p none rest h = h
check_gap_resolved-Fine p (some gap) rest h =
    elim (Bool-cases (are_equal_refs p.message_ref gap.to.message_ref)) [
      | inl same ↦ rw (check_gap_resolved, same) (refl, (rw (check_gap_resolved, same) at h))
      | inr apart ↦ rw (check_gap_resolved, apart) (rw (check_gap_resolved, apart) at h)
    ]

consume-Emits :
    (is_consumable : Test)
    → Sound is_consumable
    → (last : Option StreamMessage) (gap : Option Gap) (ps : List StreamMessage)
    → Ascending compare_messages ps
    → All (After last) ps
    → Emits
        (record { last_ordered_msg = last; current_gap = gap; pending_msgs = ps })
        (consume is_consumable last gap ps)
unfolding consume
consume-Emits is_consumable sound last gap [] asc later = ((tt, tt, λ e. refl), λ rest h. h)
consume-Emits is_consumable sound last gap (p ∷ ps) asc later =
    let (valid, emits) =
      consume-Emits is_consumable sound (some p) (check_gap_resolved p gap).1 ps asc.1 asc.0 in
    elim (Option-cases (is_consumable last p)) [
      | inl stuck ↦
          rw (consume, stuck)
            (
              (asc, later, λ e. absurd (sound.0 p (subst (λ l. is_consumable l p ≡ none) e stuck))),
              λ rest h. h,
            )
      | inr (es, passed) ↦
          rw (consume, passed)
            (
              valid,
              λ rest h.
                  let (resolved, gap') = check_gap_resolved p gap in
                  let more = (consume is_consumable (some p) gap' ps).0 in
                  let behind = check_gap_resolved-Fine p gap (more ++ rest) (emits rest h) in
                  let checked = sound.1 last p es passed (has gap) _ (later.0, behind) in
                  subst (Fine last (has gap))
                    (sym (
                      append_assoc es (ordered_message_added p ∷ (resolved ++ more)) rest
                      ∙ ap {B = List Event} (λ x. es ++ (ordered_message_added p ∷ x))
                          (append_assoc resolved more rest)))
                    checked,
            )
    ]

check_gap_found-Emits_at :
    (last : Option StreamMessage) (gap : Option Gap) (ps : List StreamMessage)
    → let c : OrderedMessageChain = record {
      last_ordered_msg = last;
      current_gap = gap;
      pending_msgs = ps;
    } in
      IsValid c → Emits c (check_gap_found c)
unfolding check_gap_found
check_gap_found-Emits_at last gap [] valid = (valid, λ rest h. h)
check_gap_found-Emits_at last (some gap) (p ∷ ps) valid = (valid, λ rest h. h)
check_gap_found-Emits_at last none (p ∷ ps) valid =
    (valid, λ rest h. (refl, refl, λ e. absurd (cc (valid.2 e)), h))

check_gap_found-Emits : (c : OrderedMessageChain) → IsValid c → Emits c (check_gap_found c)
check_gap_found-Emits c valid =
    check_gap_found-Emits_at c.last_ordered_msg c.current_gap c.pending_msgs valid

consume_pending-Emits :
    (is_consumable : Test) (gap_check_enabled : Bool) (c : OrderedMessageChain)
    → Sound is_consumable
    → Ascending compare_messages c.pending_msgs
    → All (After c.last_ordered_msg) c.pending_msgs
    → Emits c (consume_pending is_consumable gap_check_enabled c)
unfolding consume_pending
consume_pending-Emits is_consumable false c sound asc later =
    consume-Emits is_consumable sound c.last_ordered_msg c.current_gap c.pending_msgs asc later
consume_pending-Emits is_consumable true c sound asc later =
    let (valid, emits) =
      consume-Emits is_consumable sound c.last_ordered_msg c.current_gap c.pending_msgs asc later in
    let (events, c') = consume is_consumable c.last_ordered_msg c.current_gap c.pending_msgs in
    let (valid', found) = check_gap_found-Emits c' valid in
    (
      valid',
      λ rest h.
          subst (Fine c.last_ordered_msg (has c.current_gap))
            (sym (append_assoc events (check_gap_found c').0 rest)) (emits _ (found rest h)),
    )

has_last :
    (last : Option StreamMessage) (p : StreamMessage)
    → is_next_ordered_message last p ≡ false
    → last ≢ none
unfolding is_next_ordered_message
has_last none p e h = cc e
has_last (some l) p e h = cc h

next_only-Sound : Sound next_only
unfolding next_only is_next_ordered_message
next_only-Sound = (
  λ p e. cc e,
  λ last p es e open_gap rest h. elim (Bool-cases (is_next_ordered_message last p)) [
    | inr stuck ↦ absurd (cc (rw (next_only, stuck) at e))
    | inl next ↦
        subst (λ (x : List Event). Fine last open_gap (x ++ rest))
          (some-injective [] es (rw (next_only, next) at e)) h
  ],
)

-- The events of a message that is passed over as unfillable.
unfillable-Fine :
    (last : Option StreamMessage) (p : StreamMessage) (es rest : List Event) (open_gap : Bool)
    → is_next_ordered_message last p ≡ false
    → some (unfillable_gap (record { from = last; to = p }) ∷ []) ≡ some es
    → Fine last open_gap rest
    → Fine last open_gap (es ++ rest)
unfillable-Fine last p es rest open_gap behind e h =
    subst (λ (x : List Event). Fine last open_gap (x ++ rest)) (some-injective _ es e)
      (refl, has_last last p behind, h)

up_to-Sound : (to : Option MessageRef) → Sound (up_to to)
unfolding up_to is_next_ordered_message
up_to-Sound to = (
  λ p e. cc e,
  λ last p es e open_gap rest h. elim (Bool-cases (is_next_ordered_message last p)) [
    | inl next ↦
        subst (λ (x : List Event). Fine last open_gap (x ++ rest))
          (some-injective [] es (rw (up_to, next) at e)) h
    | inr behind ↦ elim (Option-cases to) [
      | inl everything ↦
          unfillable-Fine last p es rest open_gap behind (rw (up_to, behind, everything) at e) h
      | inr (ref, bounded) ↦ elim (Bool-cases (is_lt (compare_to ref p.message_ref))) [
        | inl beyond ↦ absurd (cc (rw (up_to, behind, bounded, beyond) at e))
        | inr within ↦
            unfillable-Fine last p es rest open_gap behind
              (rw (up_to, behind, bounded, within) at e) h
      ]
    ]
  ],
)

not_stale :
    (msg : StreamMessage) (c : OrderedMessageChain)
    → is_stale_message c msg ≡ false
    → (contains compare_messages c.pending_msgs msg ≡ false) × After c.last_ordered_msg msg
unfolding is_stale_message
not_stale msg c e = elim (Option-cases c.last_ordered_msg) [
  | inl first ↦ (rw (is_stale_message, first) at e, subst (λ l. After l msg) (sym first) tt)
  | inr (l, ordered) ↦
      let both = rw (is_stale_message, ordered) at e in
      (ground (arith, both), subst (λ l'. After l' msg) (sym ordered) (ground (arith, both)))
]

add_message-Emits :
    (msg : StreamMessage) (c : OrderedMessageChain) → IsValid c → Emits c (add_message msg c)
unfolding add_message is_stale_message
add_message-Emits msg c (asc, later, first) = elim (Bool-cases (is_stale_message c msg)) [
  | inl stale ↦ rw (add_message, stale) ((asc, later, first), λ rest h. h)
  | inr fresh ↦
      let (new, after) = not_stale msg c fresh in
      rw (add_message, fresh)
        (consume_pending-Emits next_only true
          (record c { pending_msgs = push compare_messages c.pending_msgs msg }) next_only-Sound
          (push-Ascending compare_messages compare_messages-IsOrder c.pending_msgs msg (λ m. 0) asc
            new).0
          (All-push compare_messages (After c.last_ordered_msg) msg c.pending_msgs after later))
]

-- A call on the chain.
pub data Call : Type 0 where
  adds : StreamMessage → Call
  resolves : Option MessageRef → Bool → Call

unfoldable pub run : List Call → OrderedMessageChain → List Event
unfolding add_message resolve_messages
run [] c = []
run (adds msg ∷ calls) c = let (events, c') = add_message msg c in events ++ run calls c'
run (resolves to check ∷ calls) c =
    let (events, c') = resolve_messages to check c in events ++ run calls c'

run-Fine :
    (calls : List Call) (c : OrderedMessageChain)
    → IsValid c
    → Fine c.last_ordered_msg (has c.current_gap) (run calls c)
unfolding run resolve_messages
run-Fine [] c valid = tt
run-Fine (adds msg ∷ calls) c valid =
    let (valid', emits) = add_message-Emits msg c valid in emits _ (run-Fine calls _ valid')
run-Fine (resolves to check ∷ calls) c valid =
    let (valid', emits) =
      consume_pending-Emits (up_to to) check c (up_to-Sound to) valid.0 valid.1 in
    emits _ (run-Fine calls _ valid')

-- Over any calls on a new chain, the messages that are emitted are in strictly ascending order of
-- their references, a gap is found only while none is open and resolved only while one is, and a gap
-- that is found or is unfillable starts at the last message emitted before, which there is.
pub run-Fine_new : (calls : List Call) → Fine none false (run calls new_chain)
run-Fine_new calls = run-Fine calls new_chain (tt, tt, λ e. refl)
