-- ===== src/Tests/Chains.antt =====
-- Concrete cases of packages/utils/src/Heap.ts, of
-- packages/sdk/src/subscribe/ordering/OrderedMessageChain.ts and of
-- packages/trackerless-network/src/content-delivery-layer/DuplicateMessageDetector.ts.
use pombo_storage_node.Base.{
  ℕ, ◌≡◌, refl, Bool, true, false, Option, none, some, List, [], ◌∷◌, any, arith, ltb, sum_of, ◌+◌,
}
use pombo_storage_node.Utils.Heap.{
  at, insert_at, is_eq, bisect, before, get_item_index, push_at, contains_at, push, contains,
  bisect-ltb,
}
use pombo_storage_node.Utils.Heap.Order.{Ascending, contains-eq-any, push-Ascending}
use pombo_storage_node.Sdk.OrderedMessageChain.{
  compare_to, compare_messages, StreamMessage, ordered_message_added, gap_found, gap_resolved,
  are_equal_refs, new_chain, is_next_ordered_message, is_stale_message, next_only, up_to,
  check_gap_resolved, check_gap_found, consume, consume_pending, add_message, resolve_messages,
}
use pombo_storage_node.Sdk.OrderedMessageChain.Chained.{
  compare_messages-IsOrder, Fine, Call, adds, resolves, run, run-Fine_new,
}
use pombo_storage_node.Trackerless.DuplicateMessageDetector.{
  NumberPair, new_number, endless, mark_and_check,
}
use pombo_storage_node.Trackerless.DuplicateMessageDetector.Runs as Runs
use pombo_storage_node.Trackerless.DuplicateMessageDetector.Runs.{
  Check, is_new, no_number_new_twice,
}

abbrev turns_at_two : ℕ → Bool
turns_at_two i = ltb i 2

bisect-ltb_example :
    (r : ℕ) × (bisect 4 turns_at_two 0 4 ≡ some r) × ((i : ℕ) → ltb i r ≡ turns_at_two i)
bisect-ltb_example =
    bisect-ltb 4 turns_at_two 0 4 (λ i j le h. ground (arith, le, h)) (λ i h. absurd (omega arith))
      (λ i h. ground (arith, h)) (omega arith) (omega arith)

abbrev message : ℕ → Option ℕ → StreamMessage
message t none = record {
  message_ref = record { timestamp = t; sequence_number = 0 };
  prev_msg_ref = none;
  content = t;
}
message t (some p) = record {
  message_ref = record { timestamp = t; sequence_number = 0 };
  prev_msg_ref = some (record { timestamp = p; sequence_number = 0 });
  content = t;
}

abbrev two : List StreamMessage
two = message 1 none ∷ message 3 (some 2) ∷ []

two-Ascending : Ascending compare_messages two
unfolding compare_to
two-Ascending = ((refl, tt), (tt, tt))

contains-eq-any_example :
    contains compare_messages two (message 3 (some 2))
    ≡ any (λ x. is_eq (compare_messages x (message 3 (some 2)))) two
contains-eq-any_example =
    contains-eq-any compare_messages compare_messages-IsOrder two (message 3 (some 2)) two-Ascending

two_new : contains compare_messages two (message 2 (some 1)) ≡ false
unfolding contains get_item_index push_at contains_at bisect before at compare_to
two_new = refl

push-Ascending_example :
    Ascending compare_messages (push compare_messages two (message 2 (some 1)))
    × (sum_of (λ m. m.content) (push compare_messages two (message 2 (some 1)))
        ≡ 2 + sum_of (λ m. m.content) two)
push-Ascending_example =
    push-Ascending compare_messages compare_messages-IsOrder two (message 2 (some 1))
      (λ m. m.content) two-Ascending two_new

abbrev calls : List Call
calls =
    adds (message 1 none)
    ∷ adds (message 3 (some 2))
    ∷ adds (message 2 (some 1))
    ∷ resolves none true
    ∷ []

gap_filled :
    run calls new_chain
    ≡ ordered_message_added (message 1 none)
      ∷ gap_found (record { from = some (message 1 none); to = message 3 (some 2) })
      ∷ ordered_message_added (message 2 (some 1))
      ∷ ordered_message_added (message 3 (some 2))
      ∷ gap_resolved
      ∷ []
unfolding run add_message resolve_messages is_stale_message consume_pending consume push contains
    get_item_index push_at contains_at bisect before at insert_at compare_to are_equal_refs
    is_next_ordered_message next_only up_to check_gap_resolved check_gap_found
gap_filled = refl

run-Fine_new_example : Fine none false (run calls new_chain)
run-Fine_new_example = run-Fine_new calls

abbrev pair : ℕ → NumberPair
pair a = record { a = a; b = 0 }

first_new :
    mark_and_check 10 none (pair 5) (Runs.run 10 [] [])
    ≡ new_number (record { lower = pair 5; upper = endless } ∷ [])
unfolding mark_and_check Runs.run
first_new = refl

no_number_new_twice_example :
    is_new (
      mark_and_check 10 (some (pair 4)) (pair 5) (
        Runs.run 10
          ((some (pair 7), pair 8) ∷ [])
          (record { lower = pair 5; upper = endless } ∷ [])))
    ≡ false
no_number_new_twice_example =
    no_number_new_twice 10 [] ((some (pair 7), pair 8) ∷ []) none (some (pair 4)) (pair 5)
      (record { lower = pair 5; upper = endless } ∷ []) (omega arith) first_new
