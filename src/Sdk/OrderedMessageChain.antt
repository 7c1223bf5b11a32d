-- ===== src/Sdk/OrderedMessageChain.antt =====
-- packages/sdk/src/subscribe/ordering/OrderedMessageChain.ts, and the references of messages that it
-- compares (packages/sdk/src/protocol/MessageRef.ts). A call returns the events that it emits; the
-- listeners are taken not to call back. Waiting and the abort signal are left out.
pub mod Chained
use pombo_storage_node.Base.{
  ℕ, Bool, true, false, not, ◌&&◌, ◌||◌, Option, none, some, List, [], ◌∷◌, ◌++◌, if◌then◌else◌,
  nat_eq, ltb,
}
use Prim.Native.Nat.{Ordering}
use pombo_storage_node.Utils.Heap.{is_eq, is_lt, push, contains}

pub record MessageRef : Type 0 where
  pub timestamp : ℕ
  pub sequence_number : ℕ

unfoldable pub compare_to : MessageRef → MessageRef → Ordering
compare_to a b =
    if ltb a.timestamp b.timestamp
    then Ordering.lt
    else if ltb b.timestamp a.timestamp
    then Ordering.gt
    else if ltb a.sequence_number b.sequence_number
    then Ordering.lt
    else if ltb b.sequence_number a.sequence_number
    then Ordering.gt
    else Ordering.eq

-- A message: its own reference, the one before it in its chain, and its content by a number.
pub record StreamMessage : Type 0 where
  pub message_ref : MessageRef
  pub prev_msg_ref : Option MessageRef
  pub content : ℕ

-- The first message of a gap is `undefined` where nothing was ordered before.
pub record Gap : Type 0 where
  pub from : Option StreamMessage
  pub to : StreamMessage

pub data Event : Type 0 where
  ordered_message_added : StreamMessage → Event
  gap_found unfillable_gap : Gap → Event
  gap_resolved : Event

unfoldable pub are_equal_refs : MessageRef → MessageRef → Bool
unfolding compare_to
are_equal_refs a b = is_eq (compare_to a b)

abbrev pub compare_messages : StreamMessage → StreamMessage → Ordering
unfolding compare_to
compare_messages a b = compare_to a.message_ref b.message_ref

pub record OrderedMessageChain : Type 0 where
  pub last_ordered_msg : Option StreamMessage
  pub current_gap : Option Gap
  pub pending_msgs : List StreamMessage

abbrev pub new_chain : OrderedMessageChain
new_chain = record { last_ordered_msg = none; current_gap = none; pending_msgs = [] }

unfoldable pub is_next_ordered_message : Option StreamMessage → StreamMessage → Bool
unfolding are_equal_refs
is_next_ordered_message last msg = elim last [
  | none ↦ true
  | some l ↦ elim msg.prev_msg_ref [ none ↦ true | some prev ↦ are_equal_refs prev l.message_ref ]
]

unfoldable pub is_stale_message : OrderedMessageChain → StreamMessage → Bool
unfolding compare_to contains
is_stale_message c msg = elim c.last_ordered_msg [
  | none ↦ contains compare_messages c.pending_msgs msg
  | some l ↦
      not (is_lt (compare_to l.message_ref msg.message_ref))
      || contains compare_messages c.pending_msgs msg
]

-- The messages that may be consumed, with the events that the test emits.
unfoldable pub next_only : Option StreamMessage → StreamMessage → Option (List Event)
unfolding is_next_ordered_message
next_only last msg = if is_next_ordered_message last msg then some [] else none

unfoldable pub up_to :
    Option MessageRef → Option StreamMessage → StreamMessage → Option (List Event)
unfolding is_next_ordered_message compare_to
up_to to last msg =
    let unfillable = some (unfillable_gap (record { from = last; to = msg }) ∷ []) in
    if is_next_ordered_message last msg then some [] else elim to [
      | none ↦ unfillable
      | some ref ↦ if is_lt (compare_to ref msg.message_ref) then none else unfillable
    ]

unfoldable pub check_gap_resolved : StreamMessage → Option Gap → List Event × Option Gap
unfolding are_equal_refs
check_gap_resolved last none = ([], none)
check_gap_resolved last (some gap) =
    if are_equal_refs last.message_ref gap.to.message_ref
    then (gap_resolved ∷ [], none)
    else ([], some gap)

unfoldable pub check_gap_found : OrderedMessageChain → List Event × OrderedMessageChain
check_gap_found c = elim c.pending_msgs [
  | [] ↦ ([], c)
  | p ∷ ps ↦ elim c.current_gap [
    | some gap ↦ ([], c)
    | none ↦
        let gap : Gap = record { from = c.last_ordered_msg; to = p } in
        (gap_found gap ∷ [], record c { current_gap = some gap })
  ]
]

-- The loop, which takes a message from the heap in each round.
unfoldable pub consume :
    (Option StreamMessage → StreamMessage → Option (List Event))
    → Option StreamMessage
    → Option Gap
    → List StreamMessage
    → List Event × OrderedMessageChain
unfolding check_gap_resolved
consume is_consumable last gap [] =
    ([], record { last_ordered_msg = last; current_gap = gap; pending_msgs = [] })
consume is_consumable last gap (p ∷ ps) =
    let (resolved, gap') = check_gap_resolved p gap in
    let (more, c) = consume is_consumable (some p) gap' ps in
    elim (is_consumable last p) [
      | none ↦ ([], record { last_ordered_msg = last; current_gap = gap; pending_msgs = p ∷ ps })
      | some emitted ↦ (emitted ++ (ordered_message_added p ∷ (resolved ++ more)), c)
    ]

unfoldable pub consume_pending :
    (Option StreamMessage → StreamMessage → Option (List Event))
    → Bool
    → OrderedMessageChain
    → List Event × OrderedMessageChain
unfolding consume check_gap_found
consume_pending is_consumable gap_check_enabled c =
    let (events, c') = consume is_consumable c.last_ordered_msg c.current_gap c.pending_msgs in
    let (found, c'') = check_gap_found c' in
    if gap_check_enabled then (events ++ found, c'') else (events, c')

unfoldable pub add_message : StreamMessage → OrderedMessageChain → List Event × OrderedMessageChain
unfolding is_stale_message consume_pending push next_only
add_message msg c =
    if is_stale_message c msg
    then ([], c)
    else consume_pending next_only true
        (record c { pending_msgs = push compare_messages c.pending_msgs msg })

unfoldable pub resolve_messages :
    Option MessageRef → Bool → OrderedMessageChain → List Event × OrderedMessageChain
unfolding consume_pending up_to
resolve_messages to gap_check_enabled c = consume_pending (up_to to) gap_check_enabled c
