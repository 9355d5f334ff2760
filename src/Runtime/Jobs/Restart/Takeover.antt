-- ===== src/Runtime/Jobs/Restart/Takeover.antt =====
-- The loop of the constructor over the runs, and what holds where the engine has started.
use Prim.Native.String.{String}
use graphlab.Prelude.{
  ◌≡◌, refl, sym, ap, subst, ◌∙◌, inl, inr, Bool, true, false, ◌&&◌, List, [], ◌∷◌, ◌++◌,
  append_assoc, append-nil, Bool-cases, Result, ok, err, if◌then◌else◌, arith,
}
use graphlab.Runtime.Execution.State.{reconciling, stopped, incomplete}
use graphlab.Runtime.Source.Store.{Unique}
use graphlab.Runtime.Jobs.Params.{Failure}
use graphlab.Runtime.Jobs.Tables.{Job, Run, Stored, State, save, any_pending}
use graphlab.Runtime.Jobs.Runs.{is_stopped}
use graphlab.Runtime.Jobs.Recovery.{
  Adoption, interrupted_jobs, adopt_run, adopt_runs, restart, with_runs, then_save, is_skipped,
  adopted, taken_over, first_of, others,
}
use graphlab.Runtime.Jobs.Restart.{
  is_disturbed, is_held, Settled, All, Seen, All-append, All-weaken, reconcile_runs-Seen, none_Seen,
  fail_job-any_pending,
}

skipped-held : (r : Run) → is_skipped r ≡ true → is_held r ≡ true
skipped-held r h = elim (Bool-cases (is_held r)) [ inl a ↦ a | inr a ↦ ground (arith, a, h) ]

module _ (r : Run) where
  -- The three ways in which a run comes out of `adopt_run`.
  picked-held :
      (b c : Bool)
      → is_held (
          if b
          then record (taken_over r) { coverage = incomplete }
          else if c
          then record (taken_over r) { state = stopped }
          else taken_over r)
        ≡ true
  picked-held true c = refl
  picked-held false true = refl
  picked-held false false = refl

  picked-state :
      (b c : Bool)
      → c ≡ false
      → (if b
          then record (taken_over r) { coverage = incomplete }
          else if c
          then record (taken_over r) { state = stopped }
          else taken_over r).state
        ≡ reconciling
  picked-state true c h = refl
  picked-state false true h = cc h
  picked-state false false h = refl

both_false : (a b : Bool) → a ≡ false → (a && b) ≡ false
both_false a b h = ground (arith, h)

adopted-Settled :
    (seen : String → Bool) (id : String) (a : Adoption) (r : Run)
    → Seen seen (id, r)
    → Settled seen (id, adopted a r (taken_over r))
adopted-Settled seen id a r h =
    (picked-held r _ _, λ s. picked-state r _ _ (both_false _ _ (ap is_stopped (h s))))

-- What the loop over the runs leaves where it returns.
record Left (seen : String → Bool) (js : List (String × Job)) (s : State) : Type 0 where
  settled : All (Settled seen) s.stored.runs
  jobs : s.stored.jobs ≡ js
  written : s.journal ≡ s.stored

then_save-ok :
    (P : State → Type 0) (x : State × Result Failure (Unit {0}))
    (f : State → State × Result Failure (Unit {0}))
    → ((s : State) → x ≡ (s, ok tt) → (f s).1 ≡ ok tt → P (f s).0)
    → (then_save x f).1 ≡ ok tt
    → P (then_save x f).0
then_save-ok P (s, ok u) f k h = k s refl h
then_save-ok P (s, err e) f k h = absurd (cc h)

save-ok : (s t : State) (b : Bool) → save s b tt ≡ (t, ok tt) → t ≡ record s { journal = s.stored }
unfolding save
save-ok s t true h = sym (ap (λ (x : State × Result Failure (Unit {0})). x.0) h)
save-ok s t false h = absurd (cc (ap (λ (x : State × Result Failure (Unit {0})). x.1) h))

-- The state behind a run that was taken over.
abbrev Behind :
    List (String × Run) → String × Run → List (String × Run) → Adoption → State → State → Type 0
Behind done r rest a s t =
    (t.stored.runs ≡ done ++ (r.0, adopted a r.1 (taken_over r.1)) ∷ rest)
    × (t.journal ≡ t.stored)
    × (t.stored.jobs ≡ s.stored.jobs)

adopt_run-ok :
    (done : List (String × Run)) (r : String × Run) (rest : List (String × Run)) (a : Adoption)
    (s t : State)
    → adopt_run done r rest a s ≡ (t, ok tt)
    → Behind done r rest a s t
unfolding adopt_run
adopt_run-ok done r rest a s t h =
    subst (Behind done r rest a s) (ap (λ (x : State × Result Failure (Unit {0})). x.0) h) (
      then_save-ok (Behind done r rest a s)
        (save (with_runs s (done ++ (r.0, taken_over r.1) ∷ rest)) a.first_saved tt) _
        (λ u e g. second u (save-ok _ u a.first_saved e) a.second_saved g)
        (ap (λ (x : State × Result Failure (Unit {0})). x.1) h))
  where
    second :
        (u : State)
        → u ≡ record (with_runs s (done ++ (r.0, taken_over r.1) ∷ rest)) {
          journal = (with_runs s (done ++ (r.0, taken_over r.1) ∷ rest)).stored;
        }
        → (b : Bool)
        → (save (with_runs u (done ++ (r.0, adopted a r.1 (taken_over r.1)) ∷ rest)) b tt).1 ≡ ok tt
        → Behind done r rest a s
            (save (with_runs u (done ++ (r.0, adopted a r.1 (taken_over r.1)) ∷ rest)) b tt).0
    second u e true g = unfold save in (refl, refl, ap (λ (t : State). t.stored.jobs) e)
    second u e false g = absurd (unfold save in cc g)

adopt_runs-Left :
    (seen : String → Bool) (done rest : List (String × Run)) (answers : List Adoption) (s : State)
    → All (Settled seen) done
    → All (Seen seen) rest
    → s.stored.runs ≡ done ++ rest
    → s.journal ≡ s.stored
    → (adopt_runs done rest answers s).1 ≡ ok tt
    → Left seen s.stored.jobs (adopt_runs done rest answers s).0
unfolding adopt_runs
adopt_runs-Left seen done [] answers s h g e w o = record {
  settled = subst (All (Settled seen)) (sym (e ∙ append-nil done)) h;
  written = w;
  jobs = refl;
}
adopt_runs-Left seen done (r ∷ rest) answers s h g e w o = elim (Bool-cases (is_skipped r.1)) [
  | inl c ↦
      let o' : (adopt_runs (done ++ r ∷ []) rest answers s).1 ≡ ok tt = rw c at o in
      rw c (
        adopt_runs-Left seen (done ++ r ∷ []) rest answers s
          (All-append (Settled seen) done (r ∷ []) h ((skipped-held r.1 c, g.0), tt)) g.1
          (e ∙ sym (append_assoc done (r ∷ []) rest)) w o')
  | inr c ↦
      let a = first_of answers in
      let r' : String × Run = (r.0, adopted a r.1 (taken_over r.1)) in
      let next = adopt_runs (done ++ r' ∷ []) rest (others answers) in
      let o' : (then_save (adopt_run done r rest a s) next).1 ≡ ok tt = rw c at o in
      rw c (
        then_save-ok (Left seen s.stored.jobs) (adopt_run done r rest a s) next
          (λ t q p.
            let (e', w', j) = adopt_run-ok done r rest a s t q in
            subst (λ js. Left seen js (next t).0) j
              (adopt_runs-Left seen (done ++ r' ∷ []) rest (others answers) t
                (All-append (Settled seen) done (r' ∷ []) h
                  (adopted-Settled seen r.0 a r.1 g.0, tt))
                g.1 (e' ∙ sym (append_assoc done (r' ∷ []) rest)) w' p))
          o')
]

-- What holds of an engine that has started on a journal.
pub record Recovered (journal : Stored) (s : State) : Type 0 where
  pub idle : any_pending s.stored.jobs ≡ false
  pub settled : All (Settled (is_disturbed journal.jobs)) s.stored.runs
  pub written : s.journal ≡ s.stored

-- Where the engine starts on a journal in which each run has its own name, whatever the capture
-- manager and the gate answer: no job is queued or running; each run is uncertain, stopped or
-- destroyed unless it has no captures, no virtual machines and no terminals; a run with a job that
-- was queued or running is uncertain; and the journal has what is in memory.
pub restart-Recovered :
    (journal : Stored) (saved : Bool) (answers : List Adoption)
    → Unique journal.runs
    → (restart journal saved answers).1 ≡ ok tt
    → Recovered journal (restart journal saved answers).0
unfolding restart save
restart-Recovered journal false answers u h = absurd (cc h)
restart-Recovered journal true answers u h =
    let d = interrupted_jobs journal in
    let seen = is_disturbed journal.jobs in
    let g =
      All-weaken _ (Seen seen) _ (λ e f s. f (ground (arith, s)))
        (reconcile_runs-Seen (λ id. false) journal.jobs journal.runs u (none_Seen journal.runs)) in
    let l =
      adopt_runs-Left seen [] d.runs answers (record { stopping = false; stored = d; journal = d })
        tt g refl refl h in
    record {
      idle = ap any_pending l.jobs ∙ fail_job-any_pending journal.jobs;
      settled = l.settled;
      written = l.written;
    }
