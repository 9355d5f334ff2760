-- ===== src/Planner/Plan/Tests.antt =====
-- The planner run on a small topology.
use Prim.Native.String.{String}
use mathlib.Core.List.{Memᴰ}
use graphlab.Prelude.{◌≡◌, refl, true, [], ◌∷◌, List, some, ok, arith}
use graphlab.Planner.Order.{Entry, mem}
use graphlab.Planner.Steps.{names}
use graphlab.Planner.Plan.Checked.{Plan, plan, IsPlan, IsSmall, plan-IsPlan, plan-captures}
use graphlab.Topology.Edges.{Edge}
use graphlab.Topology.Validate.{validate}
use graphlab.Topology.Sample.{lab, document, lock, inet_pton, digest}

-- The steps, the latest first.
abbrev lab_plan : Plan
lab_plan = record {
  steps =
      "ready" ∷ "health/a" ∷ "release/a" ∷ "converge" ∷ "enable-data" ∷ "capture-barrier"
      ∷ "capture/e3" ∷ "capture/e2" ∷ "capture/e1" ∷ "policy" ∷ "edge/e3" ∷ "edge/e2" ∷ "node/s2"
      ∷ "edge/e1" ∷ "node/s1" ∷ "node/a" ∷ "management/side" ∷ "management/net" ∷ "preflight" ∷ [];
  resource_teardown_order =
      "capture/e3" ∷ "capture/e2" ∷ "capture/e1" ∷ "edge/e3" ∷ "edge/e2" ∷ "node/s2" ∷ "edge/e1"
      ∷ "node/s1" ∷ "node/a" ∷ "management/side" ∷ "management/net" ∷ [];
}

lab_planned : plan inet_pton digest (document true) lock ≡ some (ok lab_plan)
unfolding plan
lab_planned = refl

lab_valid : validate inet_pton digest (document true) lock ≡ ok lab
unfolding validate lab
lab_valid = refl

lab-IsSmall : IsSmall lab
unfolding validate lab
lab-IsSmall = record {
  nodes = omega arith;
  edges = omega arith;
  networks = omega arith;
  attachments = omega arith;
}

plan-IsPlan_example :
    (p : Plan) × (plan inet_pton digest (document true) lock ≡ some (ok p)) × IsPlan lab p
plan-IsPlan_example = plan-IsPlan inet_pton digest (document true) lock lab lab_valid lab-IsSmall

abbrev link_entry : Entry names
link_entry = record { id = "edge/e1"; depends_on = "node/a" ∷ "node/s1" ∷ [] }

abbrev first_edge : Edge
first_edge = record { id = "e1"; first = "a:eth0"; second = "s1:p1" }

first_there : Memᴰ first_edge lab.edges
unfolding validate lab
first_there = Memᴰ.head refl

abbrev before_data : List String
before_data =
    "capture-barrier" ∷ "capture/e3" ∷ "capture/e2" ∷ "capture/e1" ∷ "policy" ∷ "edge/e3"
    ∷ "edge/e2" ∷ "node/s2" ∷ "edge/e1" ∷ "node/s1" ∷ "node/a" ∷ "management/side"
    ∷ "management/net" ∷ "preflight" ∷ []

plan-captures_example : mem names "capture/e1" before_data ≡ true
plan-captures_example =
    plan-captures inet_pton digest (document true) lock lab lab_plan lab_valid lab-IsSmall
      lab_planned ("ready" ∷ "health/a" ∷ "release/a" ∷ "converge" ∷ []) before_data first_edge refl
      first_there
