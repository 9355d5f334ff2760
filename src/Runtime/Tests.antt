-- ===== src/Runtime/Tests.antt =====
-- Source commands on a concrete run.
use Prim.Native.String.{String}
use graphlab.Prelude.{ℕ, ◌≡◌, refl, Bool, true, false, List, [], ◌∷◌, none, some, ok, arith}
use graphlab.Runtime.Source.Requests.{
  Params, Status, json_string, value, validate, wire, capability, valid_capability,
}
use graphlab.Runtime.Source.Store.{lookup, place, replace}
use graphlab.Runtime.Source.{
  Run, pick, execute, attempt, finish, State, Command, Answers, Execution, source_dispatch,
  targeted, has_room, admit, save, available, resource, is_requested, new_command,
}
use graphlab.Runtime.Source.History.{Event, asks, picks, finishes, System, Sound, step, run}
use graphlab.Runtime.Source.Invariant.{run-Sound}
use graphlab.Runtime.Source.Outcomes.{Keeps, run-Keeps}
use graphlab.Runtime.Source.Retries.{accepted-run-same}

abbrev digest : ℕ → String → String
digest n s = s

abbrev less : String → String → Bool
less a b = false

abbrev pause : Params
pause = record {
  members =
      ("action", json_string "pause")
      ∷ ("apiVersion", json_string "graphlab.source-control/v1")
      ∷ ("epoch", json_string "00000000000000000000000000000000")
      ∷ ("instance", json_string "c1")
      ∷ ("node", json_string "n1")
      ∷ ("requestId", json_string "r1")
      ∷ ("runId", json_string "run1")
      ∷ ("source", json_string "s1")
      ∷ [];
  dumped = 210;
}

abbrev status : Status
status = record {
  api_version = "graphlab.source-control/v1";
  dumped = 160;
  epoch = "00000000000000000000000000000000";
  sources = some (record { id = "s1"; state = "running"; generated_datagrams = "17" } ∷ []);
}

abbrev run1 : Run
run1 = record {
  state = "ready";
  resources =
      record { logical = "n1"; kind = "container"; identity = some "c1"; state = "created" } ∷ [];
  edges = record { id = "s1"; source = "n1" } ∷ [];
}

abbrev idle : State
idle = record { stopping = false; runs = ("run1", run1) ∷ []; jobs = "done" ∷ []; commands = [] }

abbrev start : System
start = record { state = idle; worker = none }

start-Sound : Sound start
start-Sound = record {
  few = omega arith;
  stored = omega arith;
  unique = tt;
  distinct = tt;
  executes = tt;
}

abbrev answers : Answers
answers = record { status = ok status; now_ms = 100; saved = true }

abbrev execution : Execution
execution = record { now_ms = 200; status = ok status; acknowledgement = ok (wire pause) }

abbrev events : List Event
events = picks ∷ asks 7 pause answers ∷ finishes execution true ∷ []

abbrev asked : System
asked = step digest less start (asks 7 pause answers)

pause_accepted : (source_dispatch digest less idle 7 pause answers).1 ≡ ok (new_command pause 100)
unfolding source_dispatch validate admit targeted has_room available resource capability
    valid_capability save
pause_accepted = refl

run-Sound_example : Sound (run digest less start (asks 7 pause answers ∷ events))
run-Sound_example = run-Sound digest less start (asks 7 pause answers ∷ events) start-Sound

asked_stored : lookup asked.state.commands "r1" ≡ some (new_command pause 100)
unfolding step source_dispatch validate admit targeted has_room available resource capability
    valid_capability save place
asked_stored = refl

asked-Sound : Sound asked
unfolding run step
asked-Sound = run-Sound digest less start (asks 7 pause answers ∷ []) start-Sound

run-Keeps_example :
    (c' : Command) × (lookup (run digest less asked events).state.commands "r1" ≡ some c')
    × Keeps (new_command pause 100) c'
run-Keeps_example =
    run-Keeps digest less asked events "r1" (new_command pause 100) asked-Sound asked_stored

still_running : (run digest less asked events).state.stopping ≡ false
unfolding run step source_dispatch validate admit targeted has_room available resource capability
    valid_capability save place pick is_requested execute attempt finish replace
still_running = refl

run_there :
    lookup (run digest less asked events).state.runs (value pause "runId")
    ≡ lookup idle.runs (value pause "runId")
unfolding run step source_dispatch validate admit targeted has_room available resource capability
    valid_capability save place pick is_requested execute attempt finish replace
run_there = refl

accepted-run-same_example :
    (c' : Command) × (source_dispatch digest less
        (run digest less asked events).state
        7
        pause
        answers
      ≡ ((run digest less asked events).state, ok c'))
    × Keeps (new_command pause 100) c'
accepted-run-same_example =
    accepted-run-same digest less start 7 pause answers answers (new_command pause 100) events run1
      start-Sound pause_accepted still_running run_there
