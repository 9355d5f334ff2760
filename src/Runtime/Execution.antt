-- ===== src/Runtime/Execution.antt =====
-- The execution of jobs: `work` and `execute` of cpp/runtime/engine.cpp, over the state of
-- Execution/State; Execution/Cleanup is the end of a run.
pub mod State
pub mod Cleanup
pub mod Intents
pub mod Steps
pub mod Durable
mod Tests
use Prim.Native.String.{String}
use graphlab.Prelude.{
  ℕ, zero, suc, ◌+◌, ◌%◌, ◌^◌, Bool, true, false, not, ◌&&◌, ◌||◌, List, [], ◌∷◌, ◌++◌, Option,
  none, some, if◌then◌else◌, length, get_elem?,
}
use graphlab.Bytes.{u64}
use graphlab.Runtime.Execution.State.{
  RunState, ready, stopped, converging, compensating, destroying, destroyed, reconciling, preparing,
  Resource, ResourceState, intent, prepared, removed, Coverage, closed, closed_incomplete,
  incomplete, recording, Fault, Run, JobState, failed, cancelled, succeeded, Call, capture_plan,
  preflight, activate, observe, monitor, capture_stop, capture_arm, capture_status, gate_release,
  gate_quiesce, prepare, remove, fault_remove, stop_session, Answer, works, fails, cancels, partly,
  reconciles, World, M, modify, get_run, set_job, ask, call, save, is_cancelled,
}
use graphlab.Runtime.Machine.{
  Outcome, returns, throws, killed, ◌>>=◌, ◌>>◌, pure, throw, when, attempt,
}
use graphlab.Runtime.Execution.Cleanup.{
  set_state, is_ready, is_stopped, is_reconciling, is_removed, is_closed_incomplete, was_incomplete,
  not_all_closed, closing, close_captures, modify_at, removed_at, cleared, clear_faults,
  stop_sessions, remove_resource, remove_resources, cleanup,
}

pub data Operation : Type 0 where
  start stop resume destroy recover : Operation

abbrev pub intended : String → Run → Run
intended key r = record r { resources = r.resources ++ record { key = key; state = intent } ∷ [] }

-- The last resource is the one prepared.
abbrev pub prepared_last : List Resource → List Resource
prepared_last [] = []
prepared_last (r ∷ []) = record r { state = prepared } ∷ []
prepared_last (r ∷ s ∷ rs) = r ∷ prepared_last (s ∷ rs)

abbrev pub prepared_back : Run → Run
prepared_back r = record r { resources = prepared_last r.resources }

unfoldable pub prepare_resources : Bool → List String → M Bool
prepare_resources true keys = pure true
prepare_resources false [] = pure false
prepare_resources false (key ∷ keys) = do
  modify (intended key)
  save
  call (prepare key)
  modify prepared_back
  save
  cancel ← is_cancelled
  prepare_resources cancel keys

abbrev pub next_epoch : Run → Run
next_epoch r = record r {
  capture_history = r.capture_history ++ r.captures;
  captures = [];
  capture_epoch = u64 (r.capture_epoch + 1);
}

abbrev pub now_armed : Run → Run
now_armed r = record r { coverage = Coverage.armed; state = RunState.armed }

abbrev pub is_empty : List String → Bool
is_empty [] = true
is_empty (x ∷ xs) = false

unfoldable pub released : Bool → M Bool
released true = pure true
released false = get_run >>= λ run. (do
  when run.is_recorded (call capture_status)
  call gate_release
  is_cancelled)

unfoldable pub compensated : M (Unit {0})
unfolding set_state cleanup
compensated = do
  set_state compensating
  attempt (call gate_quiesce)
  cleanup
  set_state destroyed
  set_job cancelled
  save

abbrev pub settled : Run → Run
settled r = record r {
  coverage =
      if not r.is_recorded
      then r.coverage
      else if is_ready r.state
      then recording
      else if is_closed_incomplete r.coverage
      then closed_incomplete
      else closed;
}

-- What `execute` does behind the operation.
unfoldable pub concluded : M (Unit {0})
concluded = do call observe; modify settled; set_job succeeded; save

abbrev pub ended : Bool → M (Unit {0})
ended true = compensated
ended false = set_state ready >> concluded

unfoldable pub stop_run : M (Unit {0})
unfolding close_captures set_state concluded
stop_run = do call gate_quiesce; close_captures; set_state stopped; concluded

abbrev noticed : Answer → Run → Run
noticed reconciles r = record r { state = reconciling }
noticed a r = r

-- `m5_monitor`, of which only the effect on the state of the run matters here.
unfoldable pub watch_faults : M (Unit {0})
watch_faults = ask monitor >>= λ a. modify (noticed a)

abbrev pub require : Bool → M (Unit {0})
require true = pure tt
require false = throw

unfoldable pub destroy_run : M (Unit {0})
unfolding set_state cleanup concluded
destroy_run = do
  set_state destroying
  attempt (call gate_quiesce)
  cleanup
  set_state destroyed
  concluded

abbrev pub uncertain : Run → Run
uncertain r = record r {
  state = reconciling;
  coverage = if r.is_recorded then incomplete else r.coverage;
}

-- The handler of `work`.
unfoldable pub recovered : World × Outcome (Unit {0}) → World × Outcome (Unit {0})
recovered (w, returns u) = (w, returns u)
recovered (w, killed) = (w, killed)
recovered (w, throws) = (do attempt (call gate_quiesce); set_job failed; modify uncertain; save) w

-- The captures that the backend plans.
module _ (planned : Run → List String) where
  abbrev pub with_captures : Run → Run
  with_captures r = record r { captures = planned r }

  -- The helper `arm` of `execute`.
  unfoldable pub arm : M (Unit {0})
  arm = get_run >>= λ run. when run.is_recorded (do
    when (not (is_empty run.captures)) (call capture_stop)
    modify next_epoch
    save
    call capture_plan
    modify with_captures
    save
    call capture_arm
    modify now_armed
    save)

  -- Behind the preparation; where it is cancelled in between, the rest is left out.
  unfoldable pub activated : Bool → M Bool
  unfolding arm set_state
  activated true = pure true
  activated false = do arm; set_state converging; call activate; is_cancelled

  unfoldable pub resume_run : M (Unit {0})
  unfolding watch_faults arm set_state concluded
  resume_run = do
    watch_faults
    run ← get_run
    require (is_stopped run.state)
    arm
    call activate
    when run.is_recorded (call capture_status)
    watch_faults
    again ← get_run
    require (not (is_reconciling again.state))
    call gate_release
    set_state ready
    concluded

-- The keys of the resources of a topology, and the captures that the backend plans.
module _ (resources : List String) (planned : Run → List String) where
  unfoldable pub start_run : M (Unit {0})
  unfolding prepare_resources activated released compensated concluded
  start_run = do
    run ← get_run
    when run.is_recorded (call capture_plan)
    call preflight
    c0 ← is_cancelled
    c1 ← prepare_resources c0 resources
    c2 ← activated planned c1
    c3 ← released c2
    ended c3

  unfoldable pub execute : Operation → M (Unit {0})
  execute start = start_run
  execute stop = stop_run
  execute resume = resume_run planned
  execute destroy = destroy_run
  execute recover = destroy_run

  unfoldable pub work : Operation → M (Unit {0})
  unfolding execute recovered
  work operation w = recovered (execute operation w)
