-- ===== src/Runtime/Jobs/History.antt =====
-- Jobs over any sequence of requests, steps of the worker and restarts on the journal.
use Prim.Native.String.{String}
use graphlab.Prelude.{ℕ, Bool, true, false, List, [], ◌∷◌, Option, none, some, if◌then◌else◌}
use graphlab.Runtime.Source.Store.{lookup, replace}
use graphlab.Runtime.Jobs.Params.{Members}
use graphlab.Runtime.Jobs.Tables.{
  Job, JobState, queued, running, failed, succeeded, cancelled, Run, State, Answers, save,
  with_jobs,
}
use graphlab.Runtime.Jobs.Runs.{cancel}
use graphlab.Runtime.Jobs.{Method, dispatch}
use graphlab.Runtime.Jobs.Recovery.{Adoption, with_runs, restart}

-- How a job ends.
pub data Ending : Type 0 where
  fails succeeds cancels : Ending

-- What can happen: requests, the worker that takes the first queued job and ends a running one,
-- changes of the runs, whether written to the journal or not, and a restart.
pub data Event : Type 0 where
  asks : Method → ℕ → Members → Answers → Event
  asks_cancel : Members → Bool → Event
  takes : Bool → Event
  ends : String → Ending → Bool → Event
  changes : List (String × Run) → Event
  writes : Bool → Event
  restarts : Bool → List Adoption → Event

abbrev pub is_queued : Job → Bool
is_queued j = elim j.state [ queued ↦ true | _ ↦ false ]

abbrev pub is_running : Job → Bool
is_running j = elim j.state [ running ↦ true | _ ↦ false ]

abbrev pub run_job : Job → Job
run_job j = record j { state = running }

-- The worker's search for a job, in the order of the names.
abbrev pub first_queued : List (String × Job) → Option String
first_queued [] = none
first_queued (j ∷ js) = if is_queued j.1 then some j.0 else first_queued js

abbrev pub state_of : Ending → JobState
state_of fails = failed
state_of succeeds = succeeded
state_of cancels = cancelled

abbrev pub end_job : Ending → Job → Job
end_job o j = record j { state = state_of o }

abbrev pub taken : State → Bool → Option String → State
taken s saved none = s
taken s saved (some id) = (save (with_jobs s (replace id run_job s.stored.jobs)) saved tt).0

-- The start of a round of `work`.
unfoldable pub take_job : State → Bool → State
unfolding save
take_job s saved = if s.stopping then s else taken s saved (first_queued s.stored.jobs)

abbrev pub ended : State → String → Ending → Bool → Option Job → State
ended s id o saved none = s
ended s id o saved (some j) =
    if is_running j
    then (save (with_jobs s (replace id (end_job o) s.stored.jobs)) saved tt).0
    else s

module _ (to_string : ℕ → String) (digest : Method → Members → String)
    (less : String → String → Bool) where
  unfoldable pub step : State → Event → State
  unfolding save
  step s (asks m principal p k) = (dispatch to_string digest less m s principal p k).0
  step s (asks_cancel p saved) = (cancel s p saved).0
  step s (takes saved) = take_job s saved
  step s (ends id o saved) = ended s id o saved (lookup s.stored.jobs id)
  step s (changes runs) = with_runs s runs
  step s (writes saved) = (save s saved tt).0
  step s (restarts saved answers) = (restart s.journal saved answers).0

  unfoldable pub run : State → List Event → State
  unfolding step
  run s [] = s
  run s (e ∷ es) = run (step s e) es
