-- ===== src/Runtime/Jobs.antt =====
-- The admission of jobs: `cancel`, `start` and `operate` of `dispatch` in cpp/runtime/engine.cpp, and
-- `fault.apply` and `fault.remove` of `m5_dispatch` in cpp/telemetry/engine.cpp. What the catalog, the
-- backend, the random names and the journal answer is an argument.
pub mod Params
pub mod Tables
pub mod Runs
pub mod Faults
pub mod Recovery
pub mod History
pub mod Entries
pub mod Changes
pub mod Reach
pub mod Capacity
pub mod Keys
pub mod Requests
pub mod Retries
pub mod Restart
mod Tests
use Prim.Native.String.{String, len}
use text.Mathlib.Text.{◌==◌}
use Prim.Native.String.{◌++◌}
use graphlab.Prelude.{
  ℕ, ◌+◌, Bool, true, false, not, ◌&&◌, ◌||◌, List, [], ◌∷◌, Option, none, some, ltb, leb, length,
  Result, ok, err, guard, ◌>>=◌, ◌>>◌, if◌then◌else◌,
}
use graphlab.Bytes.{u64}
use graphlab.Runtime.Execution.State.{
  RunState, preparing, ready, stopped, destroyed, Coverage, pending, unavailable,
}
use graphlab.Runtime.Source.Requests.{all_of, is_word}
use graphlab.Runtime.Source.Store.{lookup, place, replace}
use graphlab.Runtime.Jobs.Params.{
  Failure, not_found, cleanup_operations_not_cancellable, invalid_idempotency_key,
  idempotency_conflict, json_error, journal_unavailable, journal_commit_failed,
  journal_job_capacity, operation_in_progress, invalid_observation_profile, active_run_exists,
  unknown_topology, development_mode_required, capture_requires_reversible_quiescence,
  linux_interface_name_too_long, stale_revision, unsupported_operation, invalid_run_state,
  fault_run_not_available, fault_capacity, fault_direction_busy, fault_not_found, backend, Value,
  scalar, quoted, Members, fields, string, value_string, value_flag, Policy, capture_policy,
  FaultRequest, validate_fault, between,
}
use graphlab.Runtime.Jobs.Tables.{
  Operation, Job, Fault, Run, Key, Stored, State, Node, Topology, Answers, Receipt, Submission,
  is_pending, any_pending, set_at, put, save, with_jobs, start, stop, resume, destroy, recover,
  apply, remove, running, failed, succeeded, applying, active, removing, recovery_required,
  JobState, FaultState, queued,
}
use graphlab.Runtime.Jobs.Runs.{
  request_cancel, is_cancellable, cancel_found, cancel_named, cancel, is_destroyed, any_active,
  resolved, short_ports, nodes_valid, mode_allowed, new_run, start_run, found, operation_of,
  is_settled, is_stopped, allowed, bump, operate,
}
use graphlab.Runtime.Jobs.Faults.{text_of, at, is_live, any_busy, apply_fault, remove_fault}

abbrev is_key : String → Bool
is_key s = all_of is_word s && between 8 80 (len s)

unfoldable pub idempotency_key : (ℕ → String) → ℕ → Result Failure String → Result Failure String
idempotency_key to_string principal name =
    name >>= λ s. guard (is_key s) invalid_idempotency_key >> ok (to_string principal ++ ":" ++ s)

-- A repeated request for a fault has the hash of the one that made the job, hence its run.
abbrev pub receipt : String → Job → Receipt
receipt jid j = record {
  job_id = jid;
  run_id = j.run_id;
  fault_id = j.fault_id;
  revision = j.revision;
}

-- The answer to a key that is known; the journal has the job of every key.
abbrev pub replayed : Stored → Key → String → Result Failure Receipt
replayed d old hash =
    if not (old.hash == hash)
    then err idempotency_conflict
    else (found json_error (lookup d.jobs old.job_id) >>= λ j. ok (receipt old.job_id j))

abbrev pub new_job : Submission → Job
new_job x = record {
  run_id = x.run_id;
  operation = x.operation;
  fault_id = x.fault_id;
  state = queued;
  revision = x.run.revision;
  cancel_requested = false;
}

-- What a request leaves in the journal.
unfoldable pub submitted :
    (String → String → Bool) → Stored → String → String → String → Submission → Stored
unfolding put
submitted less d key hash jid x = record {
  runs = put less x.run_id x.run d.runs;
  jobs = put less jid (new_job x) d.jobs;
  keys = put less key (record { hash = hash; job_id = jid }) d.keys;
}

abbrev pub has_capacity : Stored → Result Failure (Unit {0})
has_capacity d = guard (ltb (length d.jobs) 256) journal_job_capacity

abbrev pub not_busy : Stored → Result Failure (Unit {0})
not_busy d = guard (not (any_pending d.jobs)) operation_in_progress

abbrev expected_revision : Option Value → String → Result Failure (Unit {0})
expected_revision none revision = err json_error
expected_revision (some (scalar (quoted s))) revision = guard (s == revision) stale_revision
expected_revision (some _) revision = err stale_revision

abbrev as_names : Bool → List String
as_names true =
    "topologyHash" ∷ "idempotencyKey" ∷ "developmentMode" ∷ "capturePolicy" ∷ "observationProfile"
    ∷ []
as_names false = "runId" ∷ "operation" ∷ "expectedRevision" ∷ "idempotencyKey" ∷ []

abbrev fault_names : Bool → List String
fault_names true = "runId" ∷ "fault" ∷ "idempotencyKey" ∷ "expectedRevision" ∷ []
fault_names false = "runId" ∷ "faultId" ∷ "idempotencyKey" ∷ "expectedRevision" ∷ []

-- The methods that make a job.
pub data Method : Type 0 where
  starts operates applies_fault removes_fault : Method

module _ (less : String → String → Bool) where
  -- The end of an admission: the job is stored, and the journal written.
  unfoldable pub commit :
      State → String → String → Answers → Result Failure Submission → State × Result Failure Receipt
  unfolding save submitted
  commit s key hash k (err e) = (s, err e)
  commit s key hash k (ok x) =
      save (record s { stored = submitted less s.stored key hash k.job_id x }) k.saved
        (receipt k.job_id (new_job x))

  unfoldable pub keyed :
      State
      → String
      → String
      → Answers
      → Result Failure Submission
      → Option Key
      → State × Result Failure Receipt
  keyed s key hash k fresh none = commit s key hash k fresh
  keyed s key hash k fresh (some old) = (s, replayed s.stored old hash)

  unfoldable pub with_key :
      State
      → String
      → Answers
      → Result Failure Submission
      → Result Failure String
      → State × Result Failure Receipt
  with_key s hash k fresh (err e) = (s, err e)
  with_key s hash k fresh (ok key) = keyed s key hash k fresh (lookup s.stored.keys key)

-- The decimal text of a number, the digest of a request and the order of the names.
module _ (to_string : ℕ → String) (digest : Method → Members → String)
    (less : String → String → Bool) where
  abbrev pub admission : Bool → State → Members → Answers → Result Failure Submission
  admission starting s p k =
      has_capacity s.stored
      >> (not_busy s.stored
          >> (if starting then start_run s.stored p k else operate to_string s.stored p))

  abbrev pub fault_admission :
      Bool → State → String → Run → Members → Answers → Result Failure Submission
  fault_admission adding s id r p k =
      expected_revision (lookup p "expectedRevision") (to_string r.revision)
      >> (not_busy s.stored
          >> (has_capacity s.stored
              >> (if adding then apply_fault less id r p k else remove_fault id r p)))

  abbrev run_job : Bool → Method → State → ℕ → Members → Answers → State × Result Failure Receipt
  run_job starting m s principal p k = with_key less s (digest m p) k (admission starting s p k) (
      fields p (as_names starting)
      >> idempotency_key to_string principal (string p "idempotencyKey"))

  abbrev fault_job_on :
      Bool
      → Method
      → State
      → ℕ
      → Members
      → Answers
      → String
      → Option Run
      → State × Result Failure Receipt
  fault_job_on adding m s principal p k id none = (s, err not_found)
  fault_job_on adding m s principal p k id (some r) =
      with_key less s (digest m p) k (fault_admission adding s id r p k) (
        fields p (fault_names adding)
        >> idempotency_key to_string principal (at p "idempotencyKey"))

  abbrev fault_job :
      Bool
      → Method
      → State
      → ℕ
      → Members
      → Answers
      → Result Failure String
      → State × Result Failure Receipt
  fault_job adding m s principal p k (err e) = (s, err e)
  fault_job adding m s principal p k (ok id) =
      fault_job_on adding m s principal p k id (lookup s.stored.runs id)

  abbrev pub dispatch_method :
      Method → State → ℕ → Members → Answers → State × Result Failure Receipt
  dispatch_method starts s principal p k = run_job true starts s principal p k
  dispatch_method operates s principal p k = run_job false operates s principal p k
  dispatch_method applies_fault s principal p k =
      fault_job true applies_fault s principal p k (at p "runId")
  dispatch_method removes_fault s principal p k =
      fault_job false removes_fault s principal p k (at p "runId")

  -- `dispatch` on a method that makes a job.
  unfoldable pub dispatch : Method → State → ℕ → Members → Answers → State × Result Failure Receipt
  unfolding with_key keyed commit
  dispatch m s principal p k =
      if s.stopping then (s, err journal_unavailable) else dispatch_method m s principal p k
