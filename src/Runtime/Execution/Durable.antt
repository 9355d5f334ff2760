-- ===== src/Runtime/Execution/Durable.antt =====
-- What whole jobs keep: every resource that may exist is in the journal, and a destroyed run has none.
use Prim.Native.String.{String}
use graphlab.Prelude.{◌≡◌, refl, Bool, true, false, not, List, [], ◌∷◌, arith, Bool-cases, inl, inr}
use graphlab.Runtime.Execution.{
  Operation, start, stop, resume, destroy, recover, is_empty, next_epoch, with_captures, arm,
  now_armed, activated, released, compensated, settled, concluded, ended, start_run, stop_run,
  noticed, watch_faults, require, resume_run, destroy_run, execute, uncertain, recovered, work,
  prepare_resources,
}
use graphlab.Runtime.Execution.Cleanup.{
  set_state, close_captures, cleanup, is_stopped, is_reconciling,
}
use graphlab.Runtime.Execution.State.{
  RunState, ready, stopped, converging, compensating, destroying, destroyed, Resource, Run, failed,
  cancelled, succeeded, capture_plan, preflight, activate, observe, monitor, capture_stop,
  capture_arm, capture_status, gate_release, gate_quiesce, Answer, works, fails, cancels, partly,
  reconciles, World, modify, get_run, set_job, ask, call, save, is_cancelled,
}
use graphlab.Runtime.Machine.{Outcome, returns, throws, killed, ◌>>◌, pure, when, attempt}
use graphlab.Runtime.Execution.Intents.{
  may_exist, listed, Known, Keeps, Any, On, Steady, then-Keeps, then-Steady, when-Steady,
  modify-Steady, set_job-Steady, get_run-Steady, save-Steady, is_cancelled-Steady, ask-Steady,
  call-Steady, attempt-Steady,
}
use graphlab.Runtime.Execution.Steps.{
  prepare_resources-Keeps, close_captures-Steady, cleanup-Keeps, From, AllRemoved,
}

abbrev Unset : List Resource → Type 0
Unset rs = Unit

pure-Steady : {A : Type 0} (a : A) → Steady (pure a)
pure-Steady a R w h p = (h, λ b e. p)

set_state-Steady : (s : RunState) → Steady (set_state s)
unfolding set_state
set_state-Steady s =
    then-Steady (modify (λ r. record r { state = s })) _
      (modify-Steady (λ r. record r { state = s }) (λ r. refl)) λ _. save-Steady

require-Steady : (c : Bool) → Steady (require c)
require-Steady true R w h p = (h, λ a e. p)
require-Steady false R w h p = (h, λ a e. cc)

module _ (resources : List String) (planned : Run → List String) where
  arm-Steady : Steady (arm planned)
  unfolding arm
  arm-Steady = then-Steady get_run _ get_run-Steady λ run. when-Steady run.is_recorded _ (
      then-Steady (when (not (is_empty run.captures)) (call capture_stop)) _
        (when-Steady _ (call capture_stop) (call-Steady capture_stop (λ t b n. refl)))
        λ _. then-Steady (modify next_epoch) _ (modify-Steady next_epoch (λ r. refl)) λ _.
          then-Steady save _ save-Steady λ _.
            then-Steady (call capture_plan) _ (call-Steady capture_plan (λ t b n. refl)) λ _.
              then-Steady (modify (with_captures planned)) _
                (modify-Steady (with_captures planned) (λ r. refl))
                λ _. then-Steady save _ save-Steady λ _.
                  then-Steady (call capture_arm) _ (call-Steady capture_arm (λ t b n. refl)) λ _.
                    then-Steady (modify now_armed) _ (modify-Steady now_armed (λ r. refl))
                      λ _. save-Steady)

  activated-Steady : (c : Bool) → Steady (activated planned c)
  unfolding activated
  activated-Steady true = pure-Steady true
  activated-Steady false = then-Steady (arm planned) _ arm-Steady λ _.
      then-Steady (set_state converging) _ (set_state-Steady converging) λ _.
        then-Steady (call activate) _ (call-Steady activate (λ t b n. refl))
          λ _. is_cancelled-Steady

  checked_captures : (c : Bool) → Steady (when c (call capture_status))
  checked_captures c =
      when-Steady c (call capture_status) (call-Steady capture_status (λ t b n. refl))

  released-Steady : (c : Bool) → Steady (released c)
  unfolding released
  released-Steady true = pure-Steady true
  released-Steady false = then-Steady get_run _ get_run-Steady λ run.
      then-Steady (when run.is_recorded (call capture_status)) _ (checked_captures run.is_recorded)
        λ _.
          then-Steady (call gate_release) _ (call-Steady gate_release (λ t b n. refl))
            λ _. is_cancelled-Steady

  concluded-Steady : Steady concluded
  unfolding concluded
  concluded-Steady = then-Steady (call observe) _ (call-Steady observe (λ t b n. refl)) λ _.
      then-Steady (modify settled) _ (modify-Steady settled (λ r. refl))
        λ _. then-Steady (set_job succeeded) _ (set_job-Steady succeeded) λ _. save-Steady

  quiesced : Steady (attempt (call gate_quiesce))
  quiesced = attempt-Steady gate_quiesce (λ t b n. refl)

  compensated-Keeps : Keeps Any (On (From 0)) compensated
  unfolding compensated
  compensated-Keeps =
      then-Keeps Any Any (On (From 0)) (set_state compensating) _
        (set_state-Steady compensating Unset)
        λ _. then-Keeps Any Any (On (From 0)) (attempt (call gate_quiesce)) _ (quiesced Unset) λ _.
          then-Keeps Any (On (From 0)) (On (From 0)) cleanup _ cleanup-Keeps λ _.
            then-Keeps (On (From 0)) (On (From 0)) (On (From 0)) (set_state destroyed) _
              (set_state-Steady destroyed (From 0))
              λ _.
                then-Keeps (On (From 0)) (On (From 0)) (On (From 0)) (set_job cancelled) _
                  (set_job-Steady cancelled (From 0)) λ _. save-Steady (From 0)

  ended-Keeps : (c : Bool) → Keeps Any Any (ended c)
  ended-Keeps true = λ w h p. ((compensated-Keeps w h p).0, λ a e. tt)
  ended-Keeps false =
      then-Steady (set_state ready) _ (set_state-Steady ready) (λ _. concluded-Steady) Unset

  start_run-Keeps : Keeps Any Any (start_run resources planned)
  unfolding start_run
  start_run-Keeps = then-Keeps Any Any Any get_run _ (get_run-Steady Unset) λ run.
      then-Keeps Any Any Any (when run.is_recorded (call capture_plan)) _
        (when-Steady run.is_recorded (call capture_plan) (call-Steady capture_plan (λ t b n. refl))
          Unset)
        λ _.
          then-Keeps Any Any Any (call preflight) _ (call-Steady preflight (λ t b n. refl) Unset)
            λ _. then-Keeps Any Any Any is_cancelled _ (is_cancelled-Steady Unset) λ c0.
              then-Keeps Any Any Any (prepare_resources c0 resources) _
                (prepare_resources-Keeps c0 resources)
                λ c1.
                  then-Keeps Any Any Any (activated planned c1) _ (activated-Steady c1 Unset) λ c2.
                    then-Keeps Any Any Any (released c2) _ (released-Steady c2 Unset)
                      λ c3. ended-Keeps c3

  stop_run-Keeps : Keeps Any Any stop_run
  unfolding stop_run
  stop_run-Keeps =
      then-Steady (call gate_quiesce) _ (call-Steady gate_quiesce (λ t b n. refl))
        (λ _.
          then-Steady close_captures _ close_captures-Steady
            λ _. then-Steady (set_state stopped) _ (set_state-Steady stopped) λ _. concluded-Steady)
        Unset

  watch_faults-Steady : Steady watch_faults
  unfolding watch_faults
  watch_faults-Steady =
      then-Steady (ask monitor) _ (ask-Steady monitor (λ t b n. refl))
        λ a. modify-Steady (noticed a) (same a)
    where
      same : (a : Answer) (r : Run) → (noticed a r).resources ≡ r.resources
      same works r = refl
      same fails r = refl
      same cancels r = refl
      same partly r = refl
      same reconciles r = refl

  resume_run-Keeps : Keeps Any Any (resume_run planned)
  unfolding resume_run
  resume_run-Keeps =
      then-Steady watch_faults _ watch_faults-Steady
        (λ _. then-Steady get_run _ get_run-Steady λ run.
          then-Steady (require (is_stopped run.state)) _ (require-Steady (is_stopped run.state))
            λ _. then-Steady (arm planned) _ arm-Steady λ _.
              then-Steady (call activate) _ (call-Steady activate (λ t b n. refl)) λ _.
                then-Steady (when run.is_recorded (call capture_status)) _
                  (checked_captures run.is_recorded)
                  λ _. then-Steady watch_faults _ watch_faults-Steady λ _.
                    then-Steady get_run _ get_run-Steady λ again.
                      then-Steady (require (not (is_reconciling again.state))) _ (require-Steady _)
                        λ _.
                          then-Steady (call gate_release) _
                            (call-Steady gate_release (λ t b n. refl))
                            λ _.
                              then-Steady (set_state ready) _ (set_state-Steady ready)
                                λ _. concluded-Steady)
        Unset

  destroy_run-Keeps : Keeps Any (On (From 0)) destroy_run
  unfolding destroy_run
  destroy_run-Keeps =
      then-Keeps Any Any (On (From 0)) (set_state destroying) _ (set_state-Steady destroying Unset)
        λ _. then-Keeps Any Any (On (From 0)) (attempt (call gate_quiesce)) _ (quiesced Unset) λ _.
          then-Keeps Any (On (From 0)) (On (From 0)) cleanup _ cleanup-Keeps λ _.
            then-Keeps (On (From 0)) (On (From 0)) (On (From 0)) (set_state destroyed) _
              (set_state-Steady destroyed (From 0)) λ _. concluded-Steady (From 0)

  execute-Keeps : (o : Operation) → Keeps Any Any (execute resources planned o)
  unfolding execute
  execute-Keeps start = start_run-Keeps
  execute-Keeps stop = stop_run-Keeps
  execute-Keeps resume = resume_run-Keeps
  execute-Keeps destroy = λ w h p. ((destroy_run-Keeps w h p).0, λ a e. tt)
  execute-Keeps recover = λ w h p. ((destroy_run-Keeps w h p).0, λ a e. tt)

  handled : Steady (do attempt (call gate_quiesce); set_job failed; modify uncertain; save)
  handled = then-Steady (attempt (call gate_quiesce)) _ quiesced λ _.
      then-Steady (set_job failed) _ (set_job-Steady failed)
        λ _. then-Steady (modify uncertain) _ (modify-Steady uncertain (λ r. refl)) λ _. save-Steady

  recovered-Known : (x : World × Outcome (Unit {0})) → Known x.0 → Known (recovered x).0
  unfolding recovered
  recovered-Known (w, returns u) h = h
  recovered-Known (w, killed) h = h
  recovered-Known (w, throws) h = (handled Unset w h tt).0

  -- Whatever the backend and the journal answer, wherever a call throws, a cancellation is found or
  -- the process is killed: if every resource of the run that may exist was listed as not removed,
  -- in memory and in the journal, this is so behind any job. A resource may exist from the call
  -- that prepares it on, whether that returns or not, up to a call that removes it and returns.
  pub work-Known : (w : World) (o : Operation) → Known w → Known (work resources planned o w).0
  unfolding work
  work-Known w o h = recovered-Known (execute resources planned o w) (execute-Keeps o w h tt).0

  none_listed : (rs : List Resource) (n : String) → AllRemoved rs → listed n rs ≡ false
  none_listed [] n a = refl
  none_listed (r ∷ rs) n a = ground (arith, a.0, none_listed rs n a.1)

  -- Where every resource that may exist is listed as not removed, and the job that destroys the run
  -- returns, no resource of the run may exist any more.
  pub destroy-may_exist :
      (w : World) (n : String)
      → Known w
      → (execute resources planned destroy w).1 ≡ returns tt
      → may_exist (execute resources planned destroy w).0.trace n ≡ false
  unfolding execute
  destroy-may_exist w n h e =
      let (k, q) = destroy_run-Keeps w h tt in
      elim (Bool-cases (may_exist (destroy_run w).0.trace n)) [
        | inr f ↦ f
        | inl t ↦ absurd (cc (k.memory n t, none_listed (destroy_run w).0.run.resources n (q tt e)))
      ]
