-- ===== src/Runtime/Jobs/Recovery.antt =====
-- What the constructor of the engine in cpp/runtime/engine.cpp makes of the journal: jobs that were
-- interrupted fail, and runs with captures, virtual machines or terminals are taken over.
use Prim.Native.String.{String}
use graphlab.Prelude.{
  ◌+◌, Bool, true, false, not, ◌&&◌, ◌||◌, List, [], ◌∷◌, ◌++◌, if◌then◌else◌, Result, ok, err,
}
use graphlab.Bytes.{u64}
use graphlab.Runtime.Execution.State.{
  reconciling, stopped, Coverage, closed, closed_incomplete, incomplete,
}
use graphlab.Runtime.Source.Store.{replace}
use graphlab.Runtime.Jobs.Params.{Failure}
use graphlab.Runtime.Jobs.Tables.{Job, failed, Run, Stored, State, is_pending, save}
use graphlab.Runtime.Jobs.Runs.{is_destroyed, is_stopped}

abbrev pub fail_job : Job → Job
fail_job j = if is_pending j then record j { state = failed } else j

abbrev pub map_values {ℓ} : {A : Type ℓ} → (A → A) → List (String × A) → List (String × A)
map_values f [] = []
map_values f (e ∷ es) = (e.0, f e.1) ∷ map_values f es

abbrev pub reconciled : Run → Run
reconciled r = record r { state = reconciling }

-- The run of every job that was pending is uncertain.
abbrev pub reconcile_runs : List (String × Job) → List (String × Run) → List (String × Run)
reconcile_runs [] rs = rs
reconcile_runs (j ∷ js) rs =
    reconcile_runs js (if is_pending j.1 then replace j.1.run_id reconciled rs else rs)

abbrev pub interrupted_jobs : Stored → Stored
interrupted_jobs d = record d {
  runs = reconcile_runs d.jobs d.runs;
  jobs = map_values fail_job d.jobs;
}

-- What the capture manager and the gate answer for a run, and the journal to its two writes.
pub record Adoption : Type 0 where
  pub adopts : Bool
  pub quiesces : Bool
  pub first_saved : Bool
  pub second_saved : Bool

abbrev pub is_skipped : Run → Bool
is_skipped r = is_destroyed r.state || (not r.is_recorded && not r.has_vm && not r.has_sessions)

abbrev is_closed : Coverage → Bool
is_closed closed = true
is_closed closed_incomplete = true
is_closed _ = false

abbrev is_incomplete : Coverage → Bool
is_incomplete incomplete = true
is_incomplete _ = false

abbrev pub taken_over : Run → Run
taken_over r = record r {
  controller_generation = u64 (r.controller_generation + 1);
  state = reconciling;
  coverage =
      if is_closed r.coverage || is_incomplete r.coverage then r.coverage else Coverage.interrupted;
}

-- `before` is the run as the journal had it.
abbrev pub adopted : Adoption → Run → Run → Run
adopted a before r =
    if not (is_closed before.coverage || a.adopts) || not a.quiesces
    then record r { coverage = incomplete }
    else if is_stopped before.state && is_closed before.coverage
    then record r { state = stopped }
    else r

abbrev pub with_runs : State → List (String × Run) → State
with_runs s runs = record s { stored = record s.stored { runs = runs } }

abbrev pub then_save :
    State × Result Failure (Unit {0})
    → (State → State × Result Failure (Unit {0}))
    → State × Result Failure (Unit {0})
then_save (s, ok u) f = f s
then_save (s, err e) f = (s, err e)

-- One run that is taken over, among those before and behind it.
unfoldable pub adopt_run :
    List (String × Run)
    → String × Run
    → List (String × Run)
    → Adoption
    → State
    → State × Result Failure (Unit {0})
unfolding save
adopt_run done r rest a s =
    then_save (save (with_runs s (done ++ (r.0, taken_over r.1) ∷ rest)) a.first_saved tt) λ t.
      save (with_runs t (done ++ (r.0, adopted a r.1 (taken_over r.1)) ∷ rest)) a.second_saved tt

abbrev lost : Adoption
lost = record { adopts = false; quiesces = false; first_saved = false; second_saved = false }

abbrev pub first_of : List Adoption → Adoption
first_of [] = lost
first_of (a ∷ rest) = a

abbrev pub others : List Adoption → List Adoption
others [] = []
others (a ∷ rest) = rest

-- The loop over the runs; each takes its answers.
unfoldable pub adopt_runs :
    List (String × Run)
    → List (String × Run)
    → List Adoption
    → State
    → State × Result Failure (Unit {0})
unfolding adopt_run
adopt_runs done [] answers s = (s, ok tt)
adopt_runs done (r ∷ rest) answers s =
    let a = first_of answers in
    let skip = adopt_runs (done ++ r ∷ []) rest answers s in
    let next =
      adopt_runs (done ++ (r.0, adopted a r.1 (taken_over r.1)) ∷ []) rest (others answers) in
    if is_skipped r.1 then skip else then_save (adopt_run done r rest a s) next

-- The engine as it starts on a journal.
unfoldable pub restart : Stored → Bool → List Adoption → State × Result Failure (Unit {0})
unfolding save adopt_runs
restart journal saved answers =
    let d = interrupted_jobs journal in
    let s : State = record { stopping = false; stored = d; journal = journal } in
    then_save (save s saved tt) (adopt_runs [] d.runs answers)
