-- ===== src/Planner/Plan.antt =====
-- The whole of `plan` of cpp/planner.cpp on a checked topology: its calls of `add` in order, the map
-- of the steps, the order and the teardown.
pub mod Ranks
pub mod Parts
pub mod Workloads
pub mod Members
pub mod Sizes
pub mod Closed
pub mod Table
pub mod Sorted
pub mod Teardown
pub mod Kept
pub mod Captures
pub mod Checked
mod Tests
use Prim.Native.String.{String, ◌++◌}
use text.Mathlib.Text.{◌==◌, starts_with}
use graphlab.Prelude.{
  ℕ, Bool, true, false, ◌||◌, List, [], ◌∷◌, ◌++◌ as append, map, Option, none, some, if◌then◌else◌,
  length,
}
use graphlab.Runtime.Source.Store.{lookup}
use graphlab.Planner.Order.{Entry, Outcome, order, ordered}
use graphlab.Planner.Steps.{
  names, Step, step, loop_policy, barrier, nothing, reservation, add_all, managements, preparations,
  links, guests, captures, workloads, health_keys, or_else, key_of,
}
use graphlab.Topology.Validate.{ValidatedTopology}

-- The steps that prepare resources.
abbrev pub prepared : ValidatedTopology → List Step
prepared t =
    append (managements t.networks)
      (append (preparations t.attachments t.nodes) (links t.nodes t.edges))

-- The steps that watch the links: paused guests and captures.
abbrev pub watched : ValidatedTopology → List Step
watched t = append (guests t.nodes) (captures t.nodes t.edges)

abbrev pub policy_of : ValidatedTopology → Step
policy_of t =
    step "policy" "configure-vlan-and-tree" (or_else "preflight" (map key_of (prepared t)))
      (loop_policy t.rstp)

abbrev pub barrier_of : ValidatedTopology → Step
barrier_of t =
    step "capture-barrier" "await-capture-activation" (or_else "policy" (map key_of (watched t)))
      (barrier (length t.edges) t.capture_required)

abbrev pub ready_of : ValidatedTopology → Step
ready_of t = step "ready" "mark-run-ready" (or_else "converge" (health_keys t.nodes)) nothing

abbrev pub preflight : Step
preflight = step "preflight" "verify-runtime-and-reserve" [] reservation

abbrev pub enable : Step
enable = step "enable-data" "enable-data-links" ("capture-barrier" ∷ []) nothing

abbrev pub converge : ValidatedTopology → Step
converge t = step "converge" "await-network-policy" ("enable-data" ∷ []) (loop_policy t.rstp)

-- The calls of `add`.
abbrev pub calls : ValidatedTopology → List Step
calls t =
    preflight
    ∷ append (prepared t) (
        policy_of t
        ∷ append (watched t)
            (barrier_of t ∷ enable ∷ converge t ∷ append (workloads t.nodes) (ready_of t ∷ [])))

-- The map `steps`.
unfoldable pub steps_of : ValidatedTopology → List (String × Step)
unfolding add_all
steps_of t = add_all (calls t) []

abbrev pub entry : String × Step → Entry names
entry (key, s) = record { id = key; depends_on = s.depends_on }

-- The order, with the latest step first.
unfoldable pub order_of : ValidatedTopology → Outcome names
unfolding steps_of order
order_of t = order names (map entry (steps_of t))

-- Whether the teardown undoes an operation.
abbrev pub undone : Option Step → Bool
undone none = false
undone (some s) = starts_with s.operation "prepare-" || (s.operation == "arm-capture")

-- The loop of the teardown, from the latest step.
abbrev pub teardown : List (String × Step) → List String → List String
teardown steps [] = []
teardown steps (k ∷ ks) =
    if undone (lookup steps k) then k ∷ teardown steps ks else teardown steps ks
