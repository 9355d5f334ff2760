-- ===== src/Runtime/Jobs/Restart.antt =====
-- The runs and jobs of an engine that was restarted on its journal.
pub mod Takeover
use Prim.Native.String.{String}
use text.Mathlib.Text.{◌==◌}
use text.Mathlib.TextEquality.{eq_iff}
use graphlab.Prelude.{
  ◌≡◌, refl, sym, ap, subst, ◌∙◌, inl, inr, Bool, true, false, not, ◌&&◌, ◌||◌, List, [], ◌∷◌, ◌++◌,
  append_assoc, none, Bool-cases, Result, ok, err, if◌then◌else◌, arith,
}
use graphlab.Runtime.Execution.State.{reconciling, stopped, destroyed, incomplete}
use graphlab.Runtime.Source.Store.{lookup, replace, Unique, replace-Unique}
use graphlab.Runtime.Jobs.Params.{Failure}
use graphlab.Runtime.Jobs.Tables.{Job, Run, Stored, State, save, is_pending, any_pending}
use graphlab.Runtime.Jobs.Runs.{is_destroyed, is_stopped}
use graphlab.Runtime.Jobs.Recovery.{
  Adoption, map_values, fail_job, interrupted_jobs, reconciled, reconcile_runs, adopt_run,
  adopt_runs, restart, with_runs, then_save, is_skipped, adopted, taken_over, first_of, others,
}

-- A pending job is about the run.
abbrev pub is_disturbed : List (String × Job) → String → Bool
is_disturbed [] id = false
is_disturbed (j ∷ js) id = (is_pending j.1 && j.1.run_id == id) || is_disturbed js id

-- The run has a part that outlives the engine: captures, virtual machines or terminals.
abbrev pub is_attended : Run → Bool
is_attended r = r.is_recorded || r.has_vm || r.has_sessions

-- The run carries no traffic that the engine would have to watch: it is uncertain, stopped or
-- destroyed, or nothing of it outlives the engine.
abbrev pub is_held : Run → Bool
is_held r = elim r.state [
  | reconciling ↦ true
  | stopped ↦ true
  | destroyed ↦ true
  | _ ↦ not (is_attended r)
]

abbrev pub Settled : (String → Bool) → String × Run → Type 0
Settled seen e = (is_held e.1 ≡ true) × (seen e.0 ≡ true → e.1.state ≡ reconciling)

abbrev pub All : (String × Run → Type 0) → List (String × Run) → Type 0
All P [] = Unit
All P (e ∷ es) = P e × All P es

abbrev pub Seen : (String → Bool) → String × Run → Type 0
Seen seen e = seen e.0 ≡ true → e.1.state ≡ reconciling

pub All-append :
    (P : String × Run → Type 0) (xs ys : List (String × Run))
    → All P xs
    → All P ys
    → All P (xs ++ ys)
All-append P [] ys h g = g
All-append P (x ∷ xs) ys h g = (h.0, All-append P xs ys h.1 g)

pub All-weaken :
    (P Q : String × Run → Type 0) (es : List (String × Run))
    → ((e : String × Run) → P e → Q e)
    → All P es
    → All Q es
All-weaken P Q [] f h = tt
All-weaken P Q (e ∷ es) f h = (f e h.0, All-weaken P Q es f h.1)

either : (a b : Bool) → (a || b) ≡ true → (a ≡ false) → b ≡ true
either a b h e = ground (arith, h, e)

-- No entry has the name.
apart_Seen :
    (seen : String → Bool) (k : String) (es : List (String × Run))
    → lookup es k ≡ none
    → All (Seen seen) es
    → All (Seen (λ id. (k == id) || seen id)) es
apart_Seen seen k [] n h = tt
apart_Seen seen k (e ∷ es) n h = elim (Bool-cases (e.0 == k)) [
  | inl c ↦ absurd (cc (rw c at n))
  | inr c ↦
      let d : (k == e.0) ≡ false = ground (arith, c, eq_iff e.0 k, eq_iff k e.0) in
      let n' : lookup es k ≡ none = rw c at n in
      ((λ s. h.0 (either (k == e.0) (seen e.0) s d)), apart_Seen seen k es n' h.1)
]

replace-Seen :
    (seen : String → Bool) (k : String) (es : List (String × Run))
    → Unique es
    → All (Seen seen) es
    → All (Seen (λ id. (k == id) || seen id)) (replace k reconciled es)
unfolding replace
replace-Seen seen k [] u h = tt
replace-Seen seen k (e ∷ es) u h = elim (Bool-cases (e.0 == k)) [
  | inl c ↦
      let n : lookup es k ≡ none = ap (lookup es) (sym ((eq_iff e.0 k).0 c)) ∙ u.0 in
      rw c ((λ s. refl), apart_Seen seen k es n h.1)
  | inr c ↦
      let d : (k == e.0) ≡ false = ground (arith, c, eq_iff e.0 k, eq_iff k e.0) in
      rw c ((λ s. h.0 (either (k == e.0) (seen e.0) s d)), replace-Seen seen k es u.1 h.1)
]

pub reconcile_runs-Seen :
    (seen : String → Bool) (js : List (String × Job)) (es : List (String × Run))
    → Unique es
    → All (Seen seen) es
    → All (Seen (λ id. is_disturbed js id || seen id)) (reconcile_runs js es)
reconcile_runs-Seen seen [] es u h = h
reconcile_runs-Seen seen (j ∷ js) es u h = elim (Bool-cases (is_pending j.1)) [
  | inl p ↦ rw p (
      All-weaken _ _ _ (λ e g s. g (ground (arith, s)))
        (reconcile_runs-Seen (λ id. (j.1.run_id == id) || seen id) js _
          (replace-Unique j.1.run_id reconciled es u) (replace-Seen seen j.1.run_id es u h)))
  | inr p ↦ rw p (reconcile_runs-Seen seen js es u h)
]

pub none_Seen : (es : List (String × Run)) → All (Seen (λ id. false)) es
none_Seen [] = tt
none_Seen (e ∷ es) = ((λ s. cc s), none_Seen es)

pub fail_job-any_pending : (js : List (String × Job)) → any_pending (map_values fail_job js) ≡ false
fail_job-any_pending [] = refl
fail_job-any_pending (j ∷ js) = elim (Bool-cases (is_pending j.1)) [
  | inl p ↦ rw p (fail_job-any_pending js)
  | inr p ↦ rw (p, p) (fail_job-any_pending js)
]
