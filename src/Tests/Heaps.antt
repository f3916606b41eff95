-- ===== src/Tests/Heaps.antt =====
-- gps/utils/LocHeap.cpp on small heaps, where a greater number ranks higher.
use android_device_lenovo_a.Base.{◌≡◌, refl, Bool, true, some, none, List, [], ◌∷◌, ltb, arith}
use android_device_lenovo_a.LocHeap.Node.{
  Rankable, Tree, nil, Op, push_op, pop_op, peek_op, remove_op, check_nodes, run_op, run_ops,
}
use android_device_lenovo_a.LocHeap.Order.{IsRanking}
use android_device_lenovo_a.LocHeap.Bag.{contents, Served, run_ops-Served, run_ops-check_nodes}

abbrev greater : Rankable → Rankable → Bool
greater a b = ltb b a

greater-IsRanking : IsRanking greater
greater-IsRanking = record { asym = λ a b h. ground arith; weak = λ a b c h k. ground arith }

abbrev calls : List Op
calls =
    push_op 5
    ∷ push_op 9
    ∷ push_op 7
    ∷ remove_op 5
    ∷ push_op 3
    ∷ peek_op
    ∷ pop_op
    ∷ remove_op 6
    ∷ pop_op
    ∷ []

calls_results :
    (run_ops greater calls nil).0
    ≡ none ∷ none ∷ none ∷ some 5 ∷ none ∷ some 9 ∷ some 9 ∷ none ∷ some 7 ∷ []
unfolding run_ops run_op
calls_results = refl

run_ops-Served_example :
    Served greater
      (contents nil)
      calls
      (run_ops greater calls nil).0
      (contents (run_ops greater calls nil).1)
run_ops-Served_example = run_ops-Served greater greater-IsRanking calls nil tt

abbrev three : Tree
three = (run_ops greater (push_op 5 ∷ push_op 9 ∷ push_op 7 ∷ []) nil).1

three_checks : check_nodes greater three ≡ true
unfolding run_ops run_op check_nodes
three_checks = refl

run_ops-check_nodes_example : check_nodes greater (run_ops greater calls three).1 ≡ true
run_ops-check_nodes_example = run_ops-check_nodes greater greater-IsRanking calls three three_checks
