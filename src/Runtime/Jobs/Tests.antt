-- ===== src/Runtime/Jobs/Tests.antt =====
-- Jobs on concrete runs.
use Prim.Native.String.{String}
use graphlab.Prelude.{ℕ, ◌≡◌, refl, Bool, true, false, List, [], ◌∷◌, some, ok, err, arith}
use graphlab.Runtime.Execution.State.{ready, stopped, pending, closed}
use graphlab.Runtime.Source.Store.{place, replace}
use graphlab.Runtime.Jobs.Params.{
  Members, scalar, object, quoted, number, string, capture_policy, chosen, overridden,
  validate_fault, of_members, empty_fault,
}
use graphlab.Runtime.Jobs.Tables.{Answers, Stored, State, Run, running, save, put, Receipt, resume}
use graphlab.Runtime.Jobs.Runs.{start_run, nodes_valid}
use graphlab.Runtime.Jobs.Faults.{apply_fault}
use graphlab.Runtime.Jobs.{
  Method, starts, applies_fault, dispatch, idempotency_key, submitted, commit, keyed, with_key,
}
use graphlab.Runtime.Jobs.Recovery.{Adoption, restart, adopt_run, adopt_runs}
use graphlab.Runtime.Jobs.History.{Event, asks, takes, restarts, step, run, take_job}
use graphlab.Runtime.Jobs.Capacity.{Counted, run-Counted}
use graphlab.Runtime.Jobs.Retries.{accepted-run-repeated}
use graphlab.Runtime.Jobs.Keys.{Spares}
use graphlab.Runtime.Jobs.Restart.Takeover.{Recovered, restart-Recovered}

abbrev to_string : ℕ → String
to_string n = "1"

abbrev digest : Method → Members → String
digest m p = "sha256"

abbrev less : String → String → Bool
less a b = false

abbrev nothing : Stored
nothing = record { runs = []; jobs = []; keys = [] }

abbrev empty : State
empty = record { stopping = false; stored = nothing; journal = nothing }

empty-Counted : Counted empty
empty-Counted = record {
  memory = record { single = omega arith; few = omega arith; unique = tt };
  journal = record { single = omega arith; few = omega arith; unique = tt };
  synced = λ h. (refl, refl);
}

abbrev request : Members
request =
    ("idempotencyKey", scalar (quoted "start-one"))
    ∷ ("topologyHash", scalar (quoted "sha256:1"))
    ∷ []

abbrev answers : Answers
answers = record {
  topology = some (record {
    is_recorded = true;
    nodes = record { kind = "docker"; quiesce = "supported"; ports = "eth0" ∷ [] } ∷ [];
  });
  run_id = "run1";
  job_id = "job1";
  fault_id = "fault1";
  has_plan = true;
  saved = true;
}

abbrev receipt1 : Receipt
receipt1 = record { job_id = "job1"; run_id = "run1"; fault_id = ""; revision = 1 }

start_accepted : (dispatch to_string digest less starts empty 7 request answers).1 ≡ ok receipt1
unfolding dispatch with_key keyed commit save submitted put start_run nodes_valid idempotency_key
    string capture_policy chosen overridden place
start_accepted = refl

abbrev adoption : Adoption
adoption = record { adopts = true; quiesces = true; first_saved = true; second_saved = true }

abbrev events : List Event
events = takes true ∷ restarts true (adoption ∷ []) ∷ []

run-Counted_example :
    Counted (run to_string digest less empty (asks starts 7 request answers ∷ events))
run-Counted_example =
    run-Counted to_string digest less empty (asks starts 7 request answers ∷ events) empty-Counted

still_up :
    (run to_string digest less
      (step to_string digest less empty (asks starts 7 request answers))
      events).stopping
    ≡ false
unfolding run step take_job restart adopt_runs adopt_run dispatch with_key keyed commit save
    submitted put start_run nodes_valid idempotency_key string capture_policy chosen overridden
    place replace
still_up = refl

spared : Spares "job1" events
spared = (refl, (refl, tt))

accepted-run-repeated_example :
    dispatch to_string digest less starts
      (run to_string digest less
        (step to_string digest less empty (asks starts 7 request answers))
        events)
      7
      request
      answers
    ≡ (
      run to_string digest less
          (step to_string digest less empty (asks starts 7 request answers))
          events,
      ok receipt1,
    )
accepted-run-repeated_example =
    accepted-run-repeated to_string digest less empty starts 7 request answers answers receipt1
      events empty-Counted start_accepted spared still_up tt

abbrev interrupted_run : Run
interrupted_run = record {
  state = ready;
  revision = 2;
  is_recorded = true;
  has_vm = false;
  has_sessions = false;
  coverage = pending;
  policy = record { run_bytes = 0; reserve_bytes = 0; rotate_bytes = 0; rotate_seconds = 0 };
  controller_generation = 1;
  faults = [];
}

abbrev stopped_run : Run
stopped_run = record interrupted_run { state = stopped; coverage = closed }

-- A run that is not recorded, with a virtual machine.
abbrev machine_run : Run
machine_run = record interrupted_run { is_recorded = false; has_vm = true }

abbrev interrupted_journal : Stored
interrupted_journal = record {
  runs = ("run1", interrupted_run) ∷ ("run2", stopped_run) ∷ ("run3", machine_run) ∷ [];
  jobs =
      (
        "job1",
        record {
          run_id = "run1";
          operation = resume;
          fault_id = "";
          state = running;
          revision = 2;
          cancel_requested = false;
        },
      )
      ∷ [];
  keys = [];
}

restarted : (restart interrupted_journal true (adoption ∷ adoption ∷ adoption ∷ [])).1 ≡ ok tt
unfolding restart adopt_runs adopt_run save replace
restarted = refl

restart-Recovered_example :
    Recovered interrupted_journal
      (restart interrupted_journal true (adoption ∷ adoption ∷ adoption ∷ [])).0
restart-Recovered_example =
    restart-Recovered interrupted_journal true (adoption ∷ adoption ∷ adoption ∷ [])
      (refl, (refl, (refl, tt))) restarted

abbrev ready_stored : Stored
ready_stored = record { runs = ("run1", interrupted_run) ∷ []; jobs = []; keys = [] }

abbrev ready_state : State
ready_state = record { stopping = false; stored = ready_stored; journal = ready_stored }

ready-Counted : Counted ready_state
ready-Counted = record {
  memory = record { single = omega arith; few = omega arith; unique = tt };
  journal = record { single = omega arith; few = omega arith; unique = tt };
  synced = λ h. (refl, refl);
}

abbrev fault_request : Members
fault_request =
    ("expectedRevision", scalar (quoted "1"))
    ∷ (
      "fault",
      object (
          ("delayMs", number 20)
          ∷ ("direction", quoted "a-to-b")
          ∷ ("durationSeconds", number 5)
          ∷ ("edge", quoted "e1")
          ∷ ("kind", quoted "netem")
          ∷ []),
    )
    ∷ ("idempotencyKey", scalar (quoted "fault-one"))
    ∷ ("runId", scalar (quoted "run1"))
    ∷ []

abbrev fault_receipt : Receipt
fault_receipt = record { job_id = "job1"; run_id = "run1"; fault_id = "fault1"; revision = 3 }

fault_accepted :
    (dispatch to_string digest less applies_fault ready_state 7 fault_request answers).1
    ≡ ok fault_receipt
unfolding dispatch with_key keyed commit save submitted put idempotency_key string apply_fault
    validate_fault of_members place
fault_accepted = refl

-- The request for the fault again, when the worker has taken its job.
fault_again :
    let final =
      run to_string digest less
        (step to_string digest less ready_state (asks applies_fault 7 fault_request answers))
        (takes true ∷ []) in
    dispatch to_string digest less applies_fault final 7 fault_request answers
    ≡ (final, ok fault_receipt)
unfolding run step take_job dispatch with_key keyed commit save submitted put idempotency_key string
    apply_fault validate_fault of_members place replace
fault_again =
    accepted-run-repeated to_string digest less ready_state applies_fault 7 fault_request answers
      answers fault_receipt (takes true ∷ []) ready-Counted fault_accepted (refl, tt) refl
      ("run1", refl, _, refl)

-- A fault that does nothing is refused.
idle_fault :
    validate_fault (
      some (
        object (
          ("direction", quoted "a-to-b")
          ∷ ("durationSeconds", number 5)
          ∷ ("edge", quoted "e1")
          ∷ ("kind", quoted "netem")
          ∷ [])))
    ≡ err empty_fault
unfolding validate_fault of_members
idle_fault = refl
