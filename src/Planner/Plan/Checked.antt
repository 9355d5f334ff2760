-- ===== src/Planner/Plan/Checked.antt =====
-- `plan` of cpp/planner.cpp as a whole: the check of the topology, the order of the steps and of the teardown.
use Prim.Native.String.{String, ◌++◌ as text_append}
use mathlib.Core.List.{Memᴰ}
use graphlab.Prelude.{
  ℕ, ◌<◌, ◌^◌, ◌≡◌, refl, sym, ap, subst, ◌∙◌, true, List, ◌∷◌, ◌++◌, Option, none, some, map,
  length, Result, ok, err,
}
use graphlab.Planner.Order.{
  mem, Outcome, ordered, missing_dependency, resource_dependency_cycle, out_of_fuel,
}
use graphlab.Planner.Order.Sound.{Ordered}
use graphlab.Planner.Order.Results.{IsSorted}
use graphlab.Planner.Steps.{names}
use graphlab.Planner.Plan.{steps_of, entry, order_of, teardown}
use graphlab.Planner.Plan.Captures.{captures_behind}
use graphlab.Planner.Plan.Closed.{IsClosed, order_of-IsSorted}
use graphlab.Topology.Json.{Json, Code}
use graphlab.Topology.Edges.{Edge}
use graphlab.Topology.Validate.{ValidatedTopology, validate}
use graphlab.Topology.Validate.Facts.{IsValid, validate-IsValid, ends_named, attachments_named}

-- The errors of `plan`.
pub data Failure : Type 0 where
  invalid : Code → Failure
  planner_error : Failure

-- The steps and the teardown, by their keys; the steps latest first.
pub record Plan : Type 0 where
  pub steps : List String
  pub resource_teardown_order : List String

abbrev pub planned : ValidatedTopology → Outcome names → Option (Result Failure Plan)
planned t missing_dependency = some (err planner_error)
planned t resource_dependency_cycle = some (err planner_error)
planned t out_of_fuel = none
planned t (ordered o) =
    some (ok record { steps = o; resource_teardown_order = teardown (steps_of t) o })

abbrev from_valid : Result Code ValidatedTopology → Option (Result Failure Plan)
from_valid (err e) = some (err (invalid e))
from_valid (ok t) = planned t (order_of t)

-- `plan`; `none` where the fuel of the ordering runs out.
unfoldable pub plan :
    (String → Option ℕ) → (Json → String) → Json → Json → Option (Result Failure Plan)
unfolding validate order_of steps_of
plan inet_pton digest topology artifacts = from_valid (validate inet_pton digest topology artifacts)

-- A topology of which there are fewer than 2^61 nodes, edges, networks and attachments.
pub record IsSmall (t : ValidatedTopology) : Type 0 where
  pub nodes : length t.nodes < 2 ^ 61
  pub edges : length t.edges < 2 ^ 61
  pub networks : length t.networks < 2 ^ 61
  pub attachments : length t.attachments < 2 ^ 61

valid-IsClosed : (t : ValidatedTopology) → IsValid t → IsSmall t → IsClosed t
valid-IsClosed t v s = record {
  ends = ends_named t v;
  attached = attachments_named t v;
  nodes_small = s.nodes;
  edges_small = s.edges;
  networks_small = s.networks;
  attachments_small = s.attachments;
}

-- The keys of a plan hold each of its steps once, behind all that it depends on.
abbrev pub IsPlan : ValidatedTopology → Plan → Type 0
IsPlan t p =
    IsSorted names (map entry (steps_of t)) p.steps
    × (p.resource_teardown_order ≡ teardown (steps_of t) p.steps)

from_valid-ok :
    (r : Result Code ValidatedTopology) (t : ValidatedTopology) (o : List String)
    → r ≡ ok t
    → order_of t ≡ ordered o
    → from_valid r
      ≡ some (ok record { steps = o; resource_teardown_order = teardown (steps_of t) o })
from_valid-ok r t o e q = rw (e, q) refl

plan_inj : (p q : Plan) → ◌≡◌ {A = Option (Result Failure Plan)} (some (ok p)) (some (ok q)) → p ≡ q
plan_inj p q h = cc h

module _ (inet_pton : String → Option ℕ) (digest : Json → String) where
  -- A topology that passes its checks, with fewer than 2^61 nodes, edges, networks and attachments, gets a
  -- plan: the planner reports neither a missing dependency nor a cycle, and its steps stand in an order
  -- that holds each once, behind all its dependencies.
  pub plan-IsPlan :
      (topology artifacts : Json) (t : ValidatedTopology)
      → validate inet_pton digest topology artifacts ≡ ok t
      → IsSmall t
      → (p : Plan) × (plan inet_pton digest topology artifacts ≡ some (ok p)) × IsPlan t p
  unfolding plan
  plan-IsPlan topology artifacts t h s =
      let closed = valid-IsClosed t (validate-IsValid inet_pton digest topology artifacts t h) s in
      let (o, q, sorted) = order_of-IsSorted t closed in
      (
        record { steps = o; resource_teardown_order = teardown (steps_of t) o },
        from_valid-ok (validate inet_pton digest topology artifacts) t o h q,
        (sorted, refl),
      )

  -- In the plan of a topology that passes its checks, with fewer than 2^61 nodes, edges, networks and
  -- attachments, the captures of all edges come before the step that enables data: the steps stand latest
  -- first.
  pub plan-captures :
      (topology artifacts : Json) (t : ValidatedTopology) (p : Plan)
      → validate inet_pton digest topology artifacts ≡ ok t
      → IsSmall t
      → plan inet_pton digest topology artifacts ≡ some (ok p)
      → (xs ys : List String) (e : Edge) → p.steps ≡ xs ++ "enable-data" ∷ ys
      → Memᴰ e t.edges
      → mem names (text_append "capture/" e.id) ys ≡ true
  plan-captures topology artifacts t p h s g xs ys e r m =
      let (q, made, is_plan) = plan-IsPlan topology artifacts t h s in
      let same : q ≡ p = plan_inj q p (sym made ∙ g) in
      let split : q.steps ≡ xs ++ "enable-data" ∷ ys = ap (λ (z : Plan). z.steps) same ∙ r in
      captures_behind t xs ys e
        (subst (λ o. Ordered names (map entry (steps_of t)) o) split is_plan.0.0) m
