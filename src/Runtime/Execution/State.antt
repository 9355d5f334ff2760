-- ===== src/Runtime/Execution/State.antt =====
-- What a job of the engine works on: the run and the job in memory, their copy in the journal, and
-- the calls of the backend so far. What each call, each write of the journal and each look at the
-- cancellation meets is the next answer; where the answers run out, the process is killed.
use Prim.Native.String.{String}
use graphlab.Prelude.{ℕ, Bool, true, false, List, [], ◌∷◌}
use graphlab.Runtime.Machine.{Machine, returns, throws, killed, ◌>>=◌, pure}

pub data RunState : Type 0 where
  preparing armed converging ready compensating stopped destroying destroyed reconciling : RunState

pub data ResourceState : Type 0 where
  intent prepared removed : ResourceState

pub record Resource : Type 0 where
  pub key : String
  pub state : ResourceState

pub data Coverage : Type 0 where
  pending unavailable armed recording closed closed_incomplete incomplete interrupted : Coverage

-- A fault that is live is neither removed nor cancelled.
pub record Fault : Type 0 where
  pub id : String
  pub is_live : Bool

pub record Run : Type 0 where
  pub state : RunState
  pub is_recorded : Bool
  pub resources : List Resource
  pub coverage : Coverage
  pub captures : List String
  pub capture_history : List String
  pub capture_epoch : ℕ
  pub faults : List Fault
  pub sessions : List String

pub data JobState : Type 0 where
  running failed cancelled succeeded : JobState

-- The calls of the backend and of the terminal workers; `monitor` is `m5_monitor`.
pub data Call : Type 0 where
  capture_plan preflight activate observe monitor : Call
  capture_stop capture_arm capture_status : Call
  gate_release gate_quiesce : Call
  prepare remove fault_remove stop_session : String → Call

pub data Effect : Type 0 where
  calls : Call → Bool → Effect

-- `works` and `fails` stand for a call that returns or throws. `cancels` is a cancellation that was
-- requested, `partly` captures of which one is not closed, `reconciles` a fault that could not be
-- removed in time.
pub data Answer : Type 0 where
  works fails cancels partly reconciles : Answer

pub record World : Type 0 where
  pub run : Run
  pub job : JobState
  pub stopping : Bool
  pub journal_run : Run
  pub journal_job : JobState
  pub trace : List Effect
  pub answers : List Answer

abbrev pub M : Type 0 → Type 0
M A = Machine World A

abbrev pub modify : (Run → Run) → M (Unit {0})
modify f w = (record w { run = f w.run }, returns tt)

abbrev pub get_run : M Run
get_run w = (w, returns w.run)

abbrev pub set_job : JobState → M (Unit {0})
set_job s w = (record w { job = s }, returns tt)

abbrev pub noted : World → Call → Bool → List Answer → World
noted w c b rest = record w { trace = calls c b ∷ w.trace; answers = rest }

-- A call of the backend; its answer is returned.
abbrev pub called : Call → List Answer → M Answer
called c [] w = (noted w c false [], killed)
called c (fails ∷ rest) w = (noted w c false rest, throws)
called c (a ∷ rest) w = (noted w c true rest, returns a)

unfoldable pub ask : Call → M Answer
ask c w = called c w.answers w

unfoldable pub call : Call → M (Unit {0})
call c = ask c >>= λ _. pure tt

-- `save`, which stops the engine where the journal cannot be written.
abbrev pub saved : List Answer → M (Unit {0})
saved [] w = (w, killed)
saved (fails ∷ rest) w = (record w { stopping = true; answers = rest }, throws)
saved (a ∷ rest) w =
    (record w { journal_run = w.run; journal_job = w.job; answers = rest }, returns tt)

unfoldable pub save : M (Unit {0})
save w = saved w.answers w

-- The look at the cancellation, which throws where the engine is stopping.
abbrev pub looked : (stopping : Bool) → List Answer → M Bool
looked true rest w = (w, throws)
looked false [] w = (w, killed)
looked false (fails ∷ rest) w = (record w { stopping = true; answers = rest }, throws)
looked false (cancels ∷ rest) w = (record w { answers = rest }, returns true)
looked false (a ∷ rest) w = (record w { answers = rest }, returns false)

unfoldable pub is_cancelled : M Bool
is_cancelled w = looked w.stopping w.answers w
