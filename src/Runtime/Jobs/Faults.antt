-- ===== src/Runtime/Jobs/Faults.antt =====
-- `fault.apply` and `fault.remove` of `m5_dispatch` in cpp/telemetry/engine.cpp.
use Prim.Native.String.{String}
use text.Mathlib.Text.{◌==◌}
use graphlab.Prelude.{
  Bool, true, false, not, ◌&&◌, ◌||◌, List, [], ◌∷◌, ltb, length, Result, ok, err, guard, ◌>>=◌,
  ◌>>◌,
}
use graphlab.Runtime.Source.Store.{lookup}
use graphlab.Runtime.Jobs.Params.{
  Failure, json_error, fault_run_not_available, fault_capacity, fault_direction_busy,
  fault_not_found, backend, Members, string, FaultRequest, validate_fault,
}
use graphlab.Runtime.Jobs.Tables.{
  Fault, Run, Answers, Submission, put, apply, remove, queued, removed, cancelled,
}
use graphlab.Runtime.Jobs.Runs.{found, is_settled, bump}

abbrev pub text_of : Result Failure String → Result Failure String
text_of (ok s) = ok s
text_of (err e) = err json_error

-- `at`, which throws an exception of the JSON library.
abbrev pub at : Members → String → Result Failure String
at p k = text_of (string p k)

-- `live`
abbrev pub is_live : Fault → Bool
is_live f = elim f.state [ removed ↦ false | cancelled ↦ false | _ ↦ true ]

abbrev pub any_busy : FaultRequest → List (String × Fault) → Bool
any_busy f [] = false
any_busy f (o ∷ os) =
    (is_live o.1 && o.1.request.edge == f.edge && o.1.request.direction == f.direction)
    || any_busy f os

module _ (less : String → String → Bool) where
  unfoldable pub apply_fault : String → Run → Members → Answers → Result Failure Submission
  apply_fault id r p k = do
    guard (is_settled r.state) fault_run_not_available
    guard (ltb (length r.faults) 256) fault_capacity
    f ← validate_fault (lookup p "fault")
    guard (not (any_busy f r.faults)) fault_direction_busy
    guard k.has_plan backend
    let fault : Fault = record { request = f; state = queued }
    ok record {
      run_id = id;
      run = bump (record r { faults = put less k.fault_id fault r.faults });
      operation = apply;
      fault_id = k.fault_id;
    }

unfoldable pub remove_fault : String → Run → Members → Result Failure Submission
remove_fault id r p = do
  fid ← at p "faultId"
  _ ← found fault_not_found (lookup r.faults fid)
  ok record { run_id = id; run = bump r; operation = remove; fault_id = fid }
