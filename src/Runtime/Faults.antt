-- ===== src/Runtime/Faults.antt =====
-- Faults that the engine places on edges and takes away: `m5_execute`, `m5_recover`, `m5_fault_failure`
-- and the expiry in `m5_monitor` of cpp/telemetry/engine.cpp, with the handler of `work` in
-- cpp/runtime/engine.cpp. What the backend, the journal and each look at the cancellation meet is the
-- next answer; where the answers run out, the process is killed.
pub mod Placed
pub mod Safety
pub mod Expiry
mod Tests
use Prim.Native.String.{String}
use text.Mathlib.Text.{◌==◌}
use graphlab.Prelude.{
  ℕ, ◌+◌, ◌*◌, Bool, true, false, not, ◌&&◌, ◌||◌, List, [], ◌∷◌, Option, none, some, leb,
  if◌then◌else◌,
}
use graphlab.Bytes.{u64}
use graphlab.Runtime.Machine.{
  Outcome, returns, throws, killed, Machine, ◌>>=◌, ◌>>◌, pure, when, attempt, catches, tried,
}
use graphlab.Runtime.Source.Store.{lookup, replace}
use graphlab.Runtime.Execution.State.{
  RunState, reconciling, destroyed, JobState, failed, cancelled, succeeded,
}
use graphlab.Runtime.Jobs.Tables.{
  FaultState, applying, active, removing, removed, recovery_required,
}

pub record Fault : Type 0 where
  pub state : FaultState
  pub duration_seconds : ℕ
  pub boot_id : String
  pub expires_ns : ℕ

pub record Run : Type 0 where
  pub state : RunState
  pub revision : ℕ
  pub is_acknowledged : Bool
  pub faults : List (String × Fault)

pub data Call : Type 0 where
  apply remove : String → Call
  quiesce : Call

pub data Effect : Type 0 where
  calls : Call → Bool → Effect

pub data Answer : Type 0 where
  works fails cancels : Answer

pub record World : Type 0 where
  pub run : Run
  pub job : JobState
  pub journal_run : Run
  pub journal_job : JobState
  pub trace : List Effect
  pub answers : List Answer

abbrev pub M : Type 0 → Type 0
M A = Machine World A

abbrev pub modify : (Run → Run) → M (Unit {0})
modify f w = (record w { run = f w.run }, returns tt)

abbrev pub get_run : M Run
get_run w = (w, returns w.run)

abbrev pub set_job : JobState → M (Unit {0})
set_job s w = (record w { job = s }, returns tt)

abbrev pub noted : World → Call → Bool → List Answer → World
noted w c b rest = record w { trace = calls c b ∷ w.trace; answers = rest }

abbrev pub called : Call → List Answer → M (Unit {0})
called c [] w = (noted w c false [], killed)
called c (fails ∷ rest) w = (noted w c false rest, throws)
called c (a ∷ rest) w = (noted w c true rest, returns tt)

unfoldable pub call : Call → M (Unit {0})
call c w = called c w.answers w

abbrev pub saved : List Answer → M (Unit {0})
saved [] w = (w, killed)
saved (fails ∷ rest) w = (record w { answers = rest }, throws)
saved (a ∷ rest) w =
    (record w { journal_run = w.run; journal_job = w.job; answers = rest }, returns tt)

unfoldable pub save : M (Unit {0})
save w = saved w.answers w

-- A look at `cancelRequested`, which a request sets meanwhile.
abbrev pub looked : List Answer → M Bool
looked [] w = (w, killed)
looked (cancels ∷ rest) w = (record w { answers = rest }, returns true)
looked (a ∷ rest) w = (record w { answers = rest }, returns false)

unfoldable pub is_cancelled : M Bool
is_cancelled w = looked w.answers w

-- `live`
abbrev pub is_live : Fault → Bool
is_live f = elim f.state [ removed ↦ false | FaultState.cancelled ↦ false | _ ↦ true ]

abbrev pub put_in : FaultState → Fault → Fault
put_in s f = record f { state = s }

abbrev pub with_fault : String → (Fault → Fault) → Run → Run
with_fault id g r = record r { faults = replace id g r.faults }

abbrev pub set_fault : String → (Fault → Fault) → M (Unit {0})
set_fault id g = modify (with_fault id g)

abbrev pub live_in : Option Fault → Bool
live_in none = false
live_in (some f) = is_live f

abbrev pub live_at : List (String × Fault) → String → Bool
live_at fs id = live_in (lookup fs id)

-- The fault is in place, until the clock says.
abbrev pub activated : ℕ → Fault → Fault
activated now f = record f {
  state = active;
  expires_ns = u64 (now + u64 (f.duration_seconds * 1_000_000_000));
}

abbrev pub settled : ℕ → Bool → Fault → Fault
settled now true f = put_in FaultState.cancelled f
settled now false f = activated now f

-- `m5_execute` on a fault to place, behind its first look at the cancellation.
unfoldable pub apply_job : ℕ → String → Bool → M (Unit {0})
apply_job now id true = set_fault id (put_in FaultState.cancelled) >> (set_job cancelled >> save)
apply_job now id false = do
  set_fault id (put_in applying)
  save
  call (apply id)
  cancel ← is_cancelled
  when cancel (call (remove id))
  set_fault id (settled now cancel)
  set_job (if cancel then cancelled else succeeded)
  save

-- `m5_execute` on a fault to take away, which may be gone already.
unfoldable pub remove_job : String → Bool → M (Unit {0})
remove_job id false = set_job succeeded >> save
remove_job id true = do
  set_fault id (put_in removing)
  save
  call (remove id)
  set_fault id (put_in removed)
  set_job succeeded
  save

pub data Operation : Type 0 where
  applies removes : Operation

-- `m5_execute`
unfoldable pub execute : ℕ → Operation → String → M (Unit {0})
execute now applies id = is_cancelled >>= apply_job now id
execute now removes id = get_run >>= λ r. remove_job id (live_at r.faults id)

abbrev pub uncertain : Run → Run
uncertain r = record r { state = reconciling }

-- `work` on such a job.
unfoldable pub work : ℕ → Operation → String → M (Unit {0})
unfolding execute
work now o id =
    catches (execute now o id) (do attempt (call quiesce); set_job failed; modify uncertain; save)

abbrev pub failed_fault : String → Run → Run
failed_fault id r = record r {
  state = reconciling;
  revision = u64 (r.revision + 1);
  is_acknowledged = false;
  faults = replace id (put_in recovery_required) r.faults;
}

abbrev pub acknowledged : Bool → Run → Run
acknowledged b r = record r { is_acknowledged = b }

-- `m5_fault_failure`
unfoldable pub fault_failure : String → M (Unit {0})
fault_failure id = do
  modify (failed_fault id)
  save
  held ← tried (call quiesce)
  modify (acknowledged held)
  save

abbrev pub expired_fault : String → Run → Run
expired_fault id r = record r {
  revision = u64 (r.revision + 1);
  faults = replace id (put_in removed) r.faults;
}

-- What `m5_monitor` does about a fault whose time is up.
unfoldable pub expire : String → M (Unit {0})
unfolding fault_failure
expire id = do
  set_fault id (put_in removing)
  save
  catches (do call (remove id); modify (expired_fault id); save) (fault_failure id)

abbrev pub is_destroyed : RunState → Bool
is_destroyed destroyed = true
is_destroyed _ = false

abbrev pub is_active : Fault → Bool
is_active f = elim f.state [ active ↦ true | _ ↦ false ]

-- The clock at the look at each fault.
module _ (clock : String → ℕ) where
  -- The loop of `m5_monitor` over the faults of a run, as they were when it began.
  unfoldable pub expire_all : List (String × Fault) → M (Unit {0})
  unfolding expire
  expire_all [] = pure tt
  expire_all (f ∷ fs) =
      let rest = expire_all fs in
      if is_active f.1 && leb f.1.expires_ns (clock f.0) then expire f.0 >> rest else rest

  unfoldable pub monitor : M (Unit {0})
  unfolding expire_all
  monitor = get_run >>= λ r. when (not (is_destroyed r.state)) (expire_all r.faults)

module _ (clock : String → ℕ) (boot_id : String) where
  abbrev has_expired : String → Fault → Bool
  has_expired id f = not (f.boot_id == boot_id) || not (is_active f) || leb f.expires_ns (clock id)

  unfoldable pub recover_all : List (String × Fault) → M (Unit {0})
  unfolding fault_failure
  recover_all [] = pure tt
  recover_all (f ∷ fs) =
      let rest = recover_all fs in
      if is_live f.1 && has_expired f.0 f.1
      then catches (call (remove f.0) >> set_fault f.0 (put_in removed)) (fault_failure f.0) >> rest
      else rest

  -- `m5_recover` on a run.
  unfoldable pub recover : M (Unit {0})
  unfolding recover_all
  recover = get_run >>= λ r. when (not (is_destroyed r.state)) (recover_all r.faults) >> save
