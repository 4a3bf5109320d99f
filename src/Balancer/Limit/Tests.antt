-- ===== src/Balancer/Limit/Tests.antt =====
-- The limit of one request at a concrete run.
use s19_lambda.Base.{◌≤◌, ◌≡◌, refl}
use s19_lambda.Base.Int.{pos}
use s19_lambda.Balancer.Limit.{
  Step, enters, panics, Steps, start, next, open_gate, entered, broken, gate_counts, gate_wedged,
}

abbrev one_in : Steps (open_gate (pos 1)) (entered (open_gate (pos 1)))
one_in = next _ _ _ (start _) (enters (open_gate (pos 1)) refl)

abbrev one_gone : Steps (open_gate (pos 1)) (broken (entered (open_gate (pos 1))) 0)
one_gone = next _ _ _ one_in (panics (entered (open_gate (pos 1))) 0 refl)

gate_counts_example : ((entered (open_gate (pos 1))).connections ≡ pos 1) × (1 ≤ 1)
gate_counts_example = gate_counts 1 (entered (open_gate (pos 1))) one_in

gate_wedged_example :
    ¬ Step
      (broken (entered (open_gate (pos 1))) 0)
      (entered (broken (entered (open_gate (pos 1))) 0))
gate_wedged_example =
    gate_wedged 1 (broken (entered (open_gate (pos 1))) 0)
      (entered (broken (entered (open_gate (pos 1))) 0)) one_gone refl
