-- ===== src/Runtime/Jobs/Runs.antt =====
-- `cancel`, `start` and `operate` of `dispatch` in cpp/runtime/engine.cpp.
use Prim.Native.String.{String, len}
use text.Mathlib.Text.{◌==◌}
use graphlab.Prelude.{
  ℕ, ◌+◌, Bool, true, false, not, ◌&&◌, ◌||◌, List, [], ◌∷◌, Option, none, some, leb, Result, ok,
  err, guard, ◌>>=◌, ◌>>◌, if◌then◌else◌,
}
use graphlab.Bytes.{u64}
use graphlab.Runtime.Execution.State.{
  RunState, preparing, ready, stopped, destroyed, pending, unavailable,
}
use graphlab.Runtime.Source.Store.{lookup, replace}
use graphlab.Runtime.Jobs.Params.{
  Failure, not_found, cleanup_operations_not_cancellable, invalid_observation_profile,
  active_run_exists, unknown_topology, development_mode_required,
  capture_requires_reversible_quiescence, linux_interface_name_too_long, stale_revision,
  unsupported_operation, invalid_run_state, Members, fields, string, value_string, value_flag,
  Policy, capture_policy,
}
use graphlab.Runtime.Jobs.Tables.{
  Operation, Job, Run, Stored, State, Node, Topology, Answers, Submission, is_pending, save,
  with_jobs, start, stop, resume, destroy, recover, apply,
}

abbrev pub request_cancel : Job → Job
request_cancel j = record j { cancel_requested = true }

abbrev pub is_cancellable : Operation → Bool
is_cancellable start = true
is_cancellable apply = true
is_cancellable _ = false

abbrev pub cancel_found : State → String → Bool → Option Job → State × Result Failure Job
cancel_found s id saved none = (s, err not_found)
cancel_found s id saved (some j) =
    if not (is_pending j)
    then (s, ok j)
    else if not (is_cancellable j.operation)
    then (s, err cleanup_operations_not_cancellable)
    else save (with_jobs s (replace id request_cancel s.stored.jobs)) saved (request_cancel j)

abbrev pub cancel_named : State → Bool → Result Failure String → State × Result Failure Job
cancel_named s saved (err e) = (s, err e)
cancel_named s saved (ok id) = cancel_found s id saved (lookup s.stored.jobs id)

unfoldable pub cancel : State → Members → Bool → State × Result Failure Job
cancel s p saved = cancel_named s saved (fields p ("id" ∷ []) >> string p "id")

abbrev pub is_destroyed : RunState → Bool
is_destroyed destroyed = true
is_destroyed _ = false

abbrev pub any_active : List (String × Run) → Bool
any_active [] = false
any_active (r ∷ rs) = not (is_destroyed r.1.state) || any_active rs

abbrev pub resolved : Option Topology → Result Failure Topology
resolved none = err unknown_topology
resolved (some t) = ok t

abbrev pub short_ports : List String → Result Failure (Unit {0})
short_ports [] = ok tt
short_ports (p ∷ ps) = guard (leb (len p) 15) linux_interface_name_too_long >> short_ports ps

unfoldable pub nodes_valid : Bool → List Node → Result Failure (Unit {0})
nodes_valid recorded [] = ok tt
nodes_valid recorded (n ∷ ns) =
    guard (not (recorded && n.kind == "docker" && not (n.quiesce == "supported")))
      capture_requires_reversible_quiescence
    >> (short_ports n.ports >> nodes_valid recorded ns)

-- Without capture, only in development mode.
abbrev pub mode_allowed : Bool → Members → Result Failure (Unit {0})
mode_allowed true p = ok tt
mode_allowed false p =
    value_flag p "developmentMode" false >>= λ b. guard b development_mode_required

abbrev pub new_run : Topology → Policy → Run
new_run t policy = record {
  state = preparing;
  revision = 1;
  is_recorded = t.is_recorded;
  has_vm = false;
  has_sessions = false;
  coverage = if t.is_recorded then pending else unavailable;
  policy = policy;
  controller_generation = 1;
  faults = [];
}

unfoldable pub start_run : Stored → Members → Answers → Result Failure Submission
unfolding nodes_valid
start_run d p k = do
  profile ← value_string p "observationProfile" "full"
  guard (profile == "full" || profile == "minimal") invalid_observation_profile
  guard (not (any_active d.runs)) active_run_exists
  hash ← string p "topologyHash"
  t ← resolved k.topology
  mode_allowed t.is_recorded p
  policy ← capture_policy p
  nodes_valid t.is_recorded t.nodes
  ok record { run_id = k.run_id; run = new_run t policy; operation = start; fault_id = "" }

abbrev pub found : {A : Type 0} → Failure → Option A → Result Failure A
found e none = err e
found e (some a) = ok a

abbrev pub operation_of : String → Result Failure Operation
operation_of s =
    if s == "stop"
    then ok stop
    else if s == "resume"
    then ok resume
    else if s == "destroy"
    then ok destroy
    else if s == "recover"
    then ok recover
    else err unsupported_operation

abbrev pub is_settled : RunState → Bool
is_settled ready = true
is_settled stopped = true
is_settled _ = false

abbrev pub is_stopped : RunState → Bool
is_stopped stopped = true
is_stopped _ = false

abbrev pub allowed : Operation → RunState → Bool
allowed stop s = is_settled s
allowed resume s = is_stopped s
allowed o s = true

abbrev pub bump : Run → Run
bump r = record r { revision = u64 (r.revision + 1) }

-- The decimal text of a number is a parameter.
module _ (to_string : ℕ → String) where
  unfoldable pub operate : Stored → Members → Result Failure Submission
  operate d p = do
    id ← string p "runId"
    run ← found not_found (lookup d.runs id)
    expected ← string p "expectedRevision"
    guard (expected == to_string run.revision) stale_revision
    name ← string p "operation"
    operation ← operation_of name
    guard (allowed operation run.state) invalid_run_state
    ok record { run_id = id; run = bump run; operation = operation; fault_id = "" }
