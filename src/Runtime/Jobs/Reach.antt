-- ===== src/Runtime/Jobs/Reach.antt =====
-- Every event of Jobs/History makes at most one change of Jobs/Changes.
use Prim.Native.String.{String}
use graphlab.Prelude.{
  ℕ, ◌≡◌, refl, sym, ◌∙◌, Bool-cases, inl, inr, Bool, true, false, List, [], ◌∷◌, ◌++◌, Option,
  none, some, Result, ok, err, if◌then◌else◌,
}
use graphlab.Runtime.Source.Store.{lookup, Unique}
use graphlab.Runtime.Jobs.Params.{Failure, journal_unavailable, Members}
use graphlab.Runtime.Jobs.Tables.{Job, Run, Stored, State, Answers, Receipt, Key, save, is_pending}
use graphlab.Runtime.Jobs.Faults.{at}
use graphlab.Runtime.Jobs.{
  Method, starts, operates, applies_fault, removes_fault, has_capacity, not_busy, admission,
  fault_admission, run_job, fault_job_on, fault_job, dispatch_method, dispatch,
}
use graphlab.Runtime.Jobs.Recovery.{
  Adoption, map_values, fail_job, interrupted_jobs, adopt_run, adopt_runs, restart, with_runs,
  then_save, is_skipped, adopted, taken_over, first_of, others,
}
use graphlab.Runtime.Jobs.History.{
  Event, asks, asks_cancel, takes, ends, changes, writes, restarts, Ending, fails, succeeds,
  cancels, is_running, first_queued, take_job, ended, end_job, step,
}
use graphlab.Runtime.Jobs.Changes.{
  kept, updated, interrupts, Steps, bind-ok, room, unchanged, save-Steps, with_key-Steps,
  cancel-Steps, taken-Steps,
}

-- The jobs and keys are these.
abbrev Holds : List (String × Job) → List (String × Key) → Stored → Type 0
Holds js ks d = (d.jobs ≡ js) × (d.keys ≡ ks)

record Both (js : List (String × Job)) (ks : List (String × Key)) (s : State) : Type 0 where
  memory : Holds js ks s.stored
  journal : Holds js ks s.journal

module _ (js : List (String × Job)) (ks : List (String × Key)) where
  save-Both :
      (s : State) (saved : Bool)
      → Holds js ks s.stored
      → Holds js ks s.journal
      → Both js ks (save s saved tt).0
  unfolding save
  save-Both s true h g = record { memory = h; journal = h }
  save-Both s false h g = record { memory = h; journal = g }

  then_save-Both :
      (x : State × Result Failure (Unit {0})) (f : State → State × Result Failure (Unit {0}))
      → Both js ks x.0
      → ((s : State) → Both js ks s → Both js ks (f s).0)
      → Both js ks (then_save x f).0
  then_save-Both (s, ok u) f h k = k s h
  then_save-Both (s, err e) f h k = h

  adopt_run-Both :
      (done : List (String × Run)) (r : String × Run) (rest : List (String × Run)) (a : Adoption)
      (s : State)
      → Both js ks s
      → Both js ks (adopt_run done r rest a s).0
  unfolding adopt_run
  adopt_run-Both done r rest a s h =
      then_save-Both (save (with_runs s (done ++ (r.0, taken_over r.1) ∷ rest)) a.first_saved tt) _
        (save-Both _ a.first_saved h.memory h.journal)
        λ t g.
          save-Both (with_runs t (done ++ (r.0, adopted a r.1 (taken_over r.1)) ∷ rest))
            a.second_saved g.memory g.journal

  adopt_runs-Both :
      (done rest : List (String × Run)) (answers : List Adoption) (s : State)
      → Both js ks s
      → Both js ks (adopt_runs done rest answers s).0
  unfolding adopt_runs
  adopt_runs-Both done [] answers s h = h
  adopt_runs-Both done (r ∷ rest) answers s h = elim (Bool-cases (is_skipped r.1)) [
    | inl e ↦ rw e (adopt_runs-Both (done ++ r ∷ []) rest answers s h)
    | inr e ↦
        let a = first_of answers in
        rw e (
          then_save-Both (adopt_run done r rest a s) _ (adopt_run-Both done r rest a s h) λ t g.
            adopt_runs-Both (done ++ (r.0, adopted a r.1 (taken_over r.1)) ∷ []) rest
              (others answers) t g)
  ]

module _ (less : String → String → Bool) where
  interrupted_change :
      (new : String) (s t : State)
      → Both (map_values fail_job s.journal.jobs) s.journal.keys t
      → Steps less new s t
  interrupted_change new s t h = record {
    memory = inr (interrupts h.memory.0 h.memory.1);
    journal = inr (interrupts h.journal.0 h.journal.1);
    synced = λ g z. (h.journal.0 ∙ sym h.memory.0, h.journal.1 ∙ sym h.memory.1);
  }

  restart-Steps :
      (new : String) (s : State) (saved : Bool) (answers : List Adoption)
      → Steps less new s (restart s.journal saved answers).0
  unfolding restart save
  restart-Steps new s true answers =
      let d = interrupted_jobs s.journal in
      interrupted_change new s _ (
        adopt_runs-Both _ _ [] d.runs answers (record { stopping = false; stored = d; journal = d })
          (record { memory = (refl, refl); journal = (refl, refl) }))
  restart-Steps new s false answers = record {
    memory = inr (interrupts refl refl);
    journal = inr (kept refl refl);
    synced = λ g z. absurd (cc z);
  }

  ended-Steps :
      (new : String) (s : State) (id : String) (o : Ending) (saved : Bool) (found : Option Job)
      → lookup s.stored.jobs id ≡ found
      → Steps less new s (ended s id o saved found)
  ended-Steps new s id o saved none e = unchanged less new s
  ended-Steps new s id o saved (some j) e = elim (Bool-cases (is_running j)) [
    | inl a ↦ rw a (
        save-Steps less new s _ saved _
          (inl (updated id (end_job o) j e (over o j) (λ j. (refl, refl, refl)) refl refl)) refl)
    | inr a ↦ rw a (unchanged less new s)
  ]
    where
      over : (o : Ending) (j : Job) → is_pending (end_job o j) ≡ true → is_pending j ≡ true
      over fails j h = cc
      over succeeds j h = cc
      over cancels j h = cc

  take_job-Steps :
      (new : String) (s : State) (saved : Bool)
      → Unique s.stored.jobs
      → Steps less new s (take_job s saved)
  unfolding take_job
  take_job-Steps new s saved u =
      unless_stopping s.stopping (unchanged less new s)
        (taken-Steps less new s saved (first_queued s.stored.jobs) u refl)
    where
      unless_stopping :
          {t v : State} (b : Bool)
          → Steps less new s t
          → Steps less new s v
          → Steps less new s (if b then t else v)
      unless_stopping true h g = h
      unless_stopping false h g = g

module _ (to_string : ℕ → String) (digest : Method → Members → String)
    (less : String → String → Bool) where
  run_job-Steps :
      (b : Bool) (m : Method) (s : State) (principal : ℕ) (p : Members) (k : Answers)
      → Steps less k.job_id s (run_job to_string digest less b m s principal p k).0
  run_job-Steps b m s principal p k =
      with_key-Steps less s (digest m p) k (admission to_string digest less b s p k) _ λ y h.
        let (c, h') = bind-ok (has_capacity s.stored) _ y h in
        room s.stored c (bind-ok (not_busy s.stored) _ y h').0

  fault_job-Steps :
      (b : Bool) (m : Method) (s : State) (principal : ℕ) (p : Members) (k : Answers)
      (r : Result Failure String)
      → Steps less k.job_id s (fault_job to_string digest less b m s principal p k r).0
  fault_job-Steps b m s principal p k (err e) = unchanged less k.job_id s
  fault_job-Steps b m s principal p k (ok id) = on (lookup s.stored.runs id)
    where
      on :
          (o : Option Run)
          → Steps less k.job_id s (fault_job_on to_string digest less b m s principal p k id o).0
      on none = unchanged less k.job_id s
      on (some r) =
          with_key-Steps less s (digest m p) k (fault_admission to_string digest less b s id r p k)
            _
            λ y h.
              let (e, h') = bind-ok _ _ y h in
              let (c, h'') = bind-ok (not_busy s.stored) _ y h' in
              room s.stored (bind-ok (has_capacity s.stored) _ y h'').0 c

  dispatch_method-Steps :
      (m : Method) (s : State) (principal : ℕ) (p : Members) (k : Answers)
      → Steps less k.job_id s (dispatch_method to_string digest less m s principal p k).0
  dispatch_method-Steps starts s principal p k = run_job-Steps true starts s principal p k
  dispatch_method-Steps operates s principal p k = run_job-Steps false operates s principal p k
  dispatch_method-Steps applies_fault s principal p k =
      fault_job-Steps true applies_fault s principal p k (at p "runId")
  dispatch_method-Steps removes_fault s principal p k =
      fault_job-Steps false removes_fault s principal p k (at p "runId")

  pub dispatch-Steps :
      (m : Method) (s : State) (principal : ℕ) (p : Members) (k : Answers)
      → Steps less k.job_id s (dispatch to_string digest less m s principal p k).0
  unfolding dispatch
  dispatch-Steps m s principal p k =
      unless_stopping s.stopping _ (dispatch_method-Steps m s principal p k)
    where
      unless_stopping :
          (b : Bool) (t : State × Result Failure Receipt)
          → Steps less k.job_id s t.0
          → Steps less k.job_id s (if b then (s, err journal_unavailable) else t).0
      unless_stopping true t h = unchanged less k.job_id s
      unless_stopping false t h = h

-- The name that an event would give to a new job.
abbrev pub new_name : Event → String
new_name (asks m principal p k) = k.job_id
new_name _ = ""

module _ (to_string : ℕ → String) (digest : Method → Members → String)
    (less : String → String → Bool) where
  pub step-Steps :
      (s : State) (e : Event)
      → Unique s.stored.jobs
      → Steps less (new_name e) s (step to_string digest less s e)
  unfolding step
  step-Steps s (asks m principal p k) u = dispatch-Steps to_string digest less m s principal p k
  step-Steps s (asks_cancel p saved) u = cancel-Steps less "" s p saved
  step-Steps s (takes saved) u = take_job-Steps less "" s saved u
  step-Steps s (ends id o saved) u = ended-Steps less "" s id o saved (lookup s.stored.jobs id) refl
  step-Steps s (changes runs) u = record {
    memory = inl (kept refl refl);
    journal = inr (kept refl refl);
    synced = λ h. h;
  }
  step-Steps s (writes saved) u = save-Steps less "" s s saved tt (inl (kept refl refl)) refl
  step-Steps s (restarts saved answers) u = restart-Steps less "" s saved answers
