-- ===== src/Runtime/Jobs/Tables.antt =====
-- What the engine keeps of its runs and jobs, in memory and in the journal, and `save` of
-- cpp/runtime/engine.cpp.
use Prim.Native.String.{String}
use graphlab.Prelude.{
  ℕ, Bool, true, false, ◌||◌, List, [], ◌∷◌, Option, none, some, Result, ok, err,
}
use graphlab.Runtime.Execution.State.{RunState, Coverage}
use graphlab.Runtime.Source.Store.{lookup, place, replace}
use graphlab.Runtime.Jobs.Params.{Failure, journal_commit_failed, Policy, FaultRequest}

pub data Operation : Type 0 where
  start stop resume destroy recover apply remove : Operation

pub data JobState : Type 0 where
  queued running failed cancelled succeeded : JobState

pub record Job : Type 0 where
  pub run_id : String
  pub operation : Operation
  pub fault_id : String
  pub state : JobState
  pub revision : ℕ
  pub cancel_requested : Bool

pub data FaultState : Type 0 where
  queued applying active removing removed cancelled recovery_required : FaultState

pub record Fault : Type 0 where
  pub request : FaultRequest
  pub state : FaultState

pub record Run : Type 0 where
  pub state : RunState
  pub revision : ℕ
  pub is_recorded : Bool
  pub has_vm : Bool
  pub has_sessions : Bool
  pub coverage : Coverage
  pub policy : Policy
  pub controller_generation : ℕ
  pub faults : List (String × Fault)

pub record Key : Type 0 where
  pub hash : String
  pub job_id : String

-- What the journal holds.
pub record Stored : Type 0 where
  pub runs : List (String × Run)
  pub jobs : List (String × Job)
  pub keys : List (String × Key)

pub record State : Type 0 where
  pub stopping : Bool
  pub stored : Stored
  pub journal : Stored

-- A node of a topology: its kind, what its workload's contract says of quiescence, its ports.
pub record Node : Type 0 where
  pub kind : String
  pub quiesce : String
  pub ports : List String

pub record Topology : Type 0 where
  pub is_recorded : Bool
  pub nodes : List Node

pub record Answers : Type 0 where
  pub topology : Option Topology
  pub run_id : String
  pub job_id : String
  pub fault_id : String
  pub has_plan : Bool
  pub saved : Bool

-- The fault of a reply to a fault's request; empty otherwise.
pub record Receipt : Type 0 where
  pub job_id : String
  pub run_id : String
  pub fault_id : String
  pub revision : ℕ

-- A request that passed its checks: the run as it will be, and what the job does.
pub record Submission : Type 0 where
  pub run_id : String
  pub run : Run
  pub operation : Operation
  pub fault_id : String

-- `pending`
abbrev pub is_pending : Job → Bool
is_pending j = elim j.state [ queued ↦ true | running ↦ true | _ ↦ false ]

abbrev pub any_pending : List (String × Job) → Bool
any_pending [] = false
any_pending (j ∷ js) = is_pending j.1 || any_pending js

-- An entry of a map is set: changed in place or added.
abbrev pub set_at {ℓ} :
    {A : Type ℓ}
    → (String → String → Bool)
    → String
    → A
    → List (String × A)
    → Option A
    → List (String × A)
set_at less k a es none = place less k a es
set_at less k a es (some b) = replace k (λ _. a) es

unfoldable pub put {ℓ} :
    {A : Type ℓ} → (String → String → Bool) → String → A → List (String × A) → List (String × A)
put less k a es = set_at less k a es (lookup es k)

-- `save`, which stops the engine where the journal cannot be written.
unfoldable pub save : {A : Type 0} → State → Bool → A → State × Result Failure A
save s true a = (record s { journal = s.stored }, ok a)
save s false a = (record s { stopping = true }, err journal_commit_failed)

abbrev pub with_jobs : State → List (String × Job) → State
with_jobs s jobs = record s { stored = record s.stored { jobs = jobs } }
