-- ===== src/Runtime/Execution/Tests.antt =====
-- Jobs on a concrete run with two resources.
use Prim.Native.String.{String}
use graphlab.Prelude.{◌≡◌, refl, arith, true, false, List, [], ◌∷◌}
use graphlab.Runtime.Execution.{
  start, destroy, work, execute, destroy_run, concluded, prepare_resources, recovered, start_run,
}
use graphlab.Runtime.Execution.Cleanup.{
  set_state, cleanup, clear_faults, close_captures, stop_sessions, remove_resources,
  remove_resource,
}
use graphlab.Runtime.Execution.State.{
  ready, preparing, reconciling, pending, intent, prepared, Run, running, World, works, fails,
  calls, prepare, call, ask, save, is_cancelled,
}
use graphlab.Runtime.Machine.{returns}
use graphlab.Runtime.Execution.Intents.{may_exist, Known}
use graphlab.Runtime.Execution.Durable.{work-Known, destroy-may_exist}

abbrev keys : List String
keys = "net" ∷ "node" ∷ []

abbrev planned : Run → List String
planned r = "tap" ∷ []

abbrev fresh : Run
fresh = record {
  state = preparing;
  is_recorded = false;
  resources = [];
  coverage = pending;
  captures = [];
  capture_history = [];
  capture_epoch = 0;
  faults = [];
  sessions = [];
}

-- The second call of `prepare` fails.
abbrev before : World
before = record {
  run = fresh;
  job = running;
  stopping = false;
  journal_run = fresh;
  journal_job = running;
  trace = [];
  answers = works ∷ works ∷ works ∷ works ∷ works ∷ works ∷ works ∷ fails ∷ works ∷ works ∷ [];
}

before-Known : Known before
before-Known = record { memory = λ n e. cc; journal = λ n e. cc }

work-Known_example : Known (work keys planned start before).0
work-Known_example = work-Known keys planned before start before-Known

failed_run : (work keys planned start before).0.journal_run.state ≡ reconciling
unfolding work execute start_run prepare_resources recovered call ask save is_cancelled
failed_run = refl

both_listed :
    (work keys planned start before).0.journal_run.resources
    ≡ record { key = "net"; state = prepared } ∷ record { key = "node"; state = intent } ∷ []
unfolding work execute start_run prepare_resources recovered call ask save is_cancelled
both_listed = refl

abbrev left : Run
left = record fresh {
  state = ready;
  resources =
      record { key = "net"; state = prepared } ∷ record { key = "node"; state = intent } ∷ [];
}

abbrev built : World
built = record before {
  run = left;
  journal_run = left;
  trace = calls (prepare "node") false ∷ calls (prepare "net") true ∷ [];
  answers = works ∷ fails ∷ works ∷ works ∷ works ∷ works ∷ works ∷ works ∷ works ∷ [];
}

built-Known : Known built
built-Known = record { memory = λ n e. ground (arith, e); journal = λ n e. ground (arith, e) }

finished : (execute keys planned destroy built).1 ≡ returns tt
unfolding execute destroy_run set_state cleanup clear_faults close_captures stop_sessions
    remove_resources remove_resource concluded call ask save
finished = refl

destroy-may_exist_example : may_exist (execute keys planned destroy built).0.trace "node" ≡ false
destroy-may_exist_example = destroy-may_exist keys planned built "node" built-Known finished
