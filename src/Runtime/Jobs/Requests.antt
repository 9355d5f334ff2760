-- ===== src/Runtime/Jobs/Requests.antt =====
-- The requests that make a job, as they are looked up by their keys.
use Prim.Native.String.{String}
use graphlab.Prelude.{
  ℕ, ◌≡◌, refl, ap, Bool, true, false, Option, none, some, Result, ok, err, if◌then◌else◌, ◌>>◌,
}
use graphlab.Runtime.Source.Store.{lookup}
use graphlab.Runtime.Jobs.Params.{Failure, journal_unavailable, Members, fields, string}
use graphlab.Runtime.Jobs.Faults.{at}
use graphlab.Runtime.Jobs.Tables.{Run, Stored, State, Answers, Receipt, Submission}
use graphlab.Runtime.Jobs.{
  fault_names, fault_job, fault_job_on, fault_admission, dispatch_method, applies_fault,
  removes_fault, Method, starts, operates, with_key, as_names, idempotency_key, dispatch,
}

otherwise : {A : Type 0} (b : Bool) (x y : A) → b ≡ false → (if b then x else y) ≡ y
otherwise true x y e = cc
otherwise false x y e = refl

stopped : {A : Type 0} (b : Bool) (x y : A) → b ≡ true → (if b then x else y) ≡ x
stopped true x y e = refl
stopped false x y e = cc

-- A request about a fault names a run that there is; the others ask for nothing here.
abbrev FaultRun : Stored → Members → Type 0
FaultRun d p = (id : String) × (at p "runId" ≡ ok id) × (r : Run) × (lookup d.runs id ≡ some r)

abbrev pub HasRun : Method → Stored → Members → Type 0
HasRun starts d p = Unit
HasRun operates d p = Unit
HasRun applies_fault d p = FaultRun d p
HasRun removes_fault d p = FaultRun d p

module _ (to_string : ℕ → String) where
  abbrev run_key : Bool → ℕ → Members → Result Failure String
  run_key b principal p =
      fields p (as_names b) >> idempotency_key to_string principal (string p "idempotencyKey")

  abbrev fault_key : Bool → ℕ → Members → Result Failure String
  fault_key b principal p =
      fields p (fault_names b) >> idempotency_key to_string principal (at p "idempotencyKey")

  abbrev pub key_of : Method → ℕ → Members → Result Failure String
  key_of starts principal p = run_key true principal p
  key_of operates principal p = run_key false principal p
  key_of applies_fault principal p = fault_key true principal p
  key_of removes_fault principal p = fault_key false principal p

module _ (to_string : ℕ → String) (digest : Method → Members → String)
    (less : String → String → Bool) where
  -- A request whose run is there is looked up by its key.
  abbrev pub ByKey : Method → State → ℕ → Members → Answers → Type 0
  ByKey m s principal p k =
      (x : Result Failure Submission) × (dispatch_method to_string digest less m s principal p k
        ≡ with_key less s (digest m p) k x (key_of to_string m principal p))

  pub by_key :
      (m : Method) (s : State) (principal : ℕ) (p : Members) (k : Answers)
      → HasRun m s.stored p
      → ByKey m s principal p k
  by_key starts s principal p k h = (_, refl)
  by_key operates s principal p k h = (_, refl)
  by_key applies_fault s principal p k (id, e, r, l) =
      (fault_admission to_string digest less true s id r p k, rw (e, l) refl)
  by_key removes_fault s principal p k (id, e, r, l) =
      (fault_admission to_string digest less false s id r p k, rw (e, l) refl)

  fault_job-FaultRun :
      (adding : Bool) (m : Method) (s : State) (principal : ℕ) (p : Members) (k : Answers)
      (r : Receipt)
      → (fault_job to_string digest less adding m s principal p k (at p "runId")).1 ≡ ok r
      → FaultRun s.stored p
  fault_job-FaultRun adding m s principal p k r h = on (at p "runId") refl h
    where
      found :
          (id : String) (o : Option Run)
          → at p "runId" ≡ ok id
          → lookup s.stored.runs id ≡ o
          → (fault_job_on to_string digest less adding m s principal p k id o).1 ≡ ok r
          → FaultRun s.stored p
      found id none e l h = absurd (cc h)
      found id (some run) e l h = (id, e, run, l)

      on :
          (n : Result Failure String)
          → at p "runId" ≡ n
          → (fault_job to_string digest less adding m s principal p k n).1 ≡ ok r
          → FaultRun s.stored p
      on (err e) f h = absurd (cc h)
      on (ok id) f h = found id (lookup s.stored.runs id) f refl h

  pub ok-HasRun :
      (m : Method) (s : State) (principal : ℕ) (p : Members) (k : Answers) (r : Receipt)
      → (dispatch_method to_string digest less m s principal p k).1 ≡ ok r
      → HasRun m s.stored p
  ok-HasRun starts s principal p k r h = tt
  ok-HasRun operates s principal p k r h = tt
  ok-HasRun applies_fault s principal p k r h =
      fault_job-FaultRun true applies_fault s principal p k r h
  ok-HasRun removes_fault s principal p k r h =
      fault_job-FaultRun false removes_fault s principal p k r h

  pub running_dispatch :
      (m : Method) (s : State) (principal : ℕ) (p : Members) (k : Answers)
      → s.stopping ≡ false
      → dispatch to_string digest less m s principal p k
        ≡ dispatch_method to_string digest less m s principal p k
  running_dispatch m s principal p k e = unfold dispatch in otherwise s.stopping _ _ e

  pub refused :
      (m : Method) (s : State) (principal : ℕ) (p : Members) (k : Answers)
      → s.stopping ≡ true
      → (dispatch to_string digest less m s principal p k).1 ≡ err journal_unavailable
  refused m s principal p k e =
      unfold dispatch in ap (λ (x : State × Result Failure Receipt). x.1) (stopped s.stopping _ _ e)
