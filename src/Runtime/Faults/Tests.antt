-- ===== src/Runtime/Faults/Tests.antt =====
-- Faults on a concrete run.
use Prim.Native.String.{String}
use graphlab.Prelude.{ℕ, ◌≡◌, refl, true, false, [], ◌∷◌, some}
use graphlab.Runtime.Source.Store.{lookup, replace}
use graphlab.Runtime.Execution.State.{ready, running}
use graphlab.Runtime.Jobs.Tables.{queued, active, FaultState}
use graphlab.Runtime.Faults.{
  Fault, World, works, fails, cancels, applies, put_in, work, execute, apply_job, call, save,
  is_cancelled, calls, apply,
}
use graphlab.Runtime.Faults.Placed.{Known}
use graphlab.Runtime.Faults.Safety.{perform, runs_job, perform-Known}

abbrev delay : Fault
delay = record { state = queued; duration_seconds = 60; boot_id = "b"; expires_ns = 0 }

abbrev start : World
start = record {
  run = record {
    state = ready;
    revision = 2;
    is_acknowledged = false;
    faults = ("f1", delay) ∷ [];
  };
  job = running;
  journal_run = record {
    state = ready;
    revision = 2;
    is_acknowledged = false;
    faults = ("f1", delay) ∷ [];
  };
  journal_job = running;
  trace = [];
  answers = works ∷ works ∷ works ∷ cancels ∷ fails ∷ works ∷ works ∷ [];
}

start-Known : Known start
start-Known = record { memory = λ n e. cc; journal = λ n e. cc }

-- The fault is placed, a cancellation is found, and the fault cannot be removed.
perform-Known_example : Known (perform (runs_job 7 applies "f1") start)
perform-Known_example =
    perform-Known (runs_job 7 applies "f1") start start-Known ((delay, refl), refl)

still_known :
    lookup (perform (runs_job 7 applies "f1") start).journal_run.faults "f1"
    ≡ some (put_in FaultState.applying delay)
unfolding perform work execute apply_job call save is_cancelled replace
still_known = refl

abbrev placed : World
placed = record start {
  run = record start.run { faults = ("f1", put_in active delay) ∷ [] };
  trace = calls (apply "f1") true ∷ [];
  answers = works ∷ fails ∷ works ∷ works ∷ works ∷ [];
}

abbrev clock : String → ℕ
clock id = 9
