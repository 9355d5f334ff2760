-- ===== src/Runtime/Faults/Safety.antt =====
-- What the operations on faults keep: a fault that may be in place is not forgotten.
use Prim.Native.String.{String}
use graphlab.Prelude.{ℕ, ◌≡◌, refl, Bool, true, false, List, [], ◌∷◌, if◌then◌else◌}
use graphlab.Runtime.Machine.{
  ◌>>=◌, ◌>>◌, pure, when, attempt, catches, tried, then-Keeping, catches-Keeping, tried-Keeping,
}
use graphlab.Runtime.Execution.State.{JobState, failed, cancelled, succeeded}
use graphlab.Runtime.Jobs.Tables.{FaultState, applying, removing, removed, recovery_required}
use graphlab.Runtime.Faults.{
  Fault, Run, apply, remove, quiesce, World, M, modify, set_job, call, save, is_cancelled, is_live,
  live_at, put_in, with_fault, set_fault, settled, apply_job, remove_job, Operation, applies,
  removes, execute, work, uncertain, failed_fault, acknowledged, fault_failure, expired_fault,
  expire, expire_all, monitor, recover_all, recover,
}
use graphlab.Runtime.Faults.Placed.{
  Known, Any, Has, Live, LiveInBoth, Gone, Keeps, Live-Has, live-Keeps, start-Keeps, gone-Keeps,
  same-Keeps, set_job-Keeps, save-Keeps, is_cancelled-Keeps, apply-Keeps, remove-Keeps,
  quiesce-Keeps, attempt-Keeps, when-Keeps,
}

pub then-Keeps :
    {A B : Type 0} (P Q R : World → Type 0) (m : M A) (f : A → M B)
    → Keeps P Q m
    → ((a : A) → Keeps Q R (f a))
    → Keeps P R (m >>= f)
then-Keeps P Q R m f k l = then-Keeping Known P Q R m f k l

save_any : Keeps Any Any save
save_any = save-Keeps Any Any (λ w rest p. tt)

concluded : (s : JobState) → Keeps Any Any (set_job s >> save)
concluded s = then-Keeps Any Any Any (set_job s) _ (set_job-Keeps s) (λ _. save_any)

-- A fault is marked live and written, before a call about it.
announced :
    {B : Type 0} (R : World → Type 0) (id : String) (s : FaultState) (m : M B)
    → ((f : Fault) → is_live (put_in s f) ≡ true)
    → Keeps (LiveInBoth id) R m
    → Keeps (Has id) R (set_fault id (put_in s) >> (save >> m))
announced R id s m l k =
    then-Keeps (Has id) (Live id) R (set_fault id (put_in s)) _
      (start-Keeps id (put_in s) (with_fault id (put_in s)) l (λ r. refl))
      λ _.
        then-Keeps (Live id) (LiveInBoth id) R save _
          (save-Keeps (Live id) (LiveInBoth id) (λ w rest p. (p, p))) (λ _. k)

-- A fault is marked as it is behind its call.
finished :
    (id : String) (g : Fault → Fault) (s : JobState)
    → Keeps (Gone id) Any (set_fault id g >> (set_job s >> save))
finished id g s =
    then-Keeps (Gone id) Any Any (set_fault id g) _ (gone-Keeps id g (with_fault id g) (λ r. refl))
      (λ _. concluded s)

apply_job-Keeps :
    (now : ℕ) (id : String) (c : Bool) → Keeps (λ w. Has id w × Gone id w) Any (apply_job now id c)
unfolding apply_job
apply_job-Keeps now id true = λ w k p. finished id (put_in FaultState.cancelled) cancelled w k p.1
apply_job-Keeps now id false = λ w k p.
    announced Any id applying _ (λ f. refl)
      (then-Keeps (LiveInBoth id) Any Any (call (apply id)) _ (apply-Keeps id)
        λ _. then-Keeps Any Any Any is_cancelled _ (is_cancelled-Keeps Any (λ w rest p. tt)) rest)
      w k p.0
  where
    rest :
        (c : Bool)
        → Keeps Any Any (do
          when c (call (remove id))
          set_fault id (settled now c)
          set_job (if c then cancelled else succeeded)
          save)
    rest true =
        then-Keeps Any (Gone id) Any (call (remove id)) _ (remove-Keeps id)
          λ _. finished id (settled now true) cancelled
    rest false =
        then-Keeps Any Any Any (pure tt) _ (λ w k p. (k, λ a e. tt))
          λ _.
            then-Keeps Any Any Any (set_fault id (settled now false)) _
              (live-Keeps id (settled now false) (with_fault id (settled now false)) (λ f. refl)
                (λ r. refl))
              (λ _. concluded succeeded)

remove_job-Keeps :
    (id : String) (c : Bool) → Keeps (λ w. live_at w.run.faults id ≡ c) Any (remove_job id c)
unfolding remove_job
remove_job-Keeps id false = λ w k p. concluded succeeded w k tt
remove_job-Keeps id true = λ w k p.
    announced Any id removing _ (λ f. refl)
      (then-Keeps (LiveInBoth id) (Gone id) Any (call (remove id)) _
        (λ w k p. remove-Keeps id w k tt) (λ _. finished id (put_in removed) succeeded))
      w k (Live-Has id w p)

-- What a job may rely on: a fault to place is there, and was not placed before.
abbrev pub Ready : Operation → String → World → Type 0
Ready applies id w = Has id w × Gone id w
Ready removes id w = Any w

execute-Keeps : (now : ℕ) (o : Operation) (id : String) → Keeps (Ready o id) Any (execute now o id)
unfolding execute
execute-Keeps now applies id =
    then-Keeps (Ready applies id) (Ready applies id) Any is_cancelled _
      (is_cancelled-Keeps (Ready applies id) (λ w rest p. p)) (apply_job-Keeps now id)
execute-Keeps now removes id = λ w k p. remove_job-Keeps id (live_at w.run.faults id) w k refl

work-Keeps : (now : ℕ) (o : Operation) (id : String) → Keeps (Ready o id) Any (work now o id)
unfolding work
work-Keeps now o id =
    catches-Keeping Known (Ready o id) Any (execute now o id) _ (execute-Keeps now o id) (
      then-Keeps Any Any Any (attempt (call quiesce)) _ attempt-Keeps λ _.
        then-Keeps Any Any Any (set_job failed) _ (set_job-Keeps failed) λ _.
          then-Keeps Any Any Any (modify uncertain) _ (same-Keeps uncertain (λ r. refl))
            (λ _. save_any))

fault_failure-Keeps : (id : String) → Keeps Any Any (fault_failure id)
unfolding fault_failure
fault_failure-Keeps id =
    then-Keeps Any Any Any (modify (failed_fault id)) _
      (live-Keeps id (put_in recovery_required) (failed_fault id) (λ f. refl) (λ r. refl))
      λ _. then-Keeps Any Any Any save _ save_any λ _.
        then-Keeps Any Any Any (tried (call quiesce)) _
          (tried-Keeping Known Any (call quiesce) (λ w k p. ((quiesce-Keeps w k p).0, tt)))
          λ b.
            then-Keeps Any Any Any (modify (acknowledged b)) _
              (same-Keeps (acknowledged b) (λ r. refl)) (λ _. save_any)

-- A fault is taken away, and the failure to do so recorded.
taken_away :
    (id : String) (h : Run → Run)
    → ((r : Run) → (h r).faults ≡ (with_fault id (put_in removed) r).faults)
    → Keeps Any Any (call (remove id) >> modify h)
taken_away id h e =
    then-Keeps Any (Gone id) Any (call (remove id)) _ (remove-Keeps id)
      (λ _. gone-Keeps id (put_in removed) h e)

expire-Keeps : (id : String) → Keeps Any Any (expire id)
unfolding expire
expire-Keeps id =
    then-Keeps Any Any Any (set_fault id (put_in removing)) _
      (live-Keeps id (put_in removing) (with_fault id (put_in removing)) (λ f. refl) (λ r. refl))
      λ _. then-Keeps Any Any Any save _ save_any λ _.
        catches-Keeping Known Any Any _ (fault_failure id)
          (then-Keeps Any (Gone id) Any (call (remove id)) _ (remove-Keeps id) λ _.
            then-Keeps (Gone id) Any Any (modify (expired_fault id)) _
              (gone-Keeps id (put_in removed) (expired_fault id) (λ r. refl)) (λ _. save_any))
          (fault_failure-Keeps id)

if-Keeps :
    (c : Bool) (m n : M (Unit {0}))
    → Keeps Any Any m
    → Keeps Any Any n
    → Keeps Any Any (if c then m >> n else n)
if-Keeps true m n k l = then-Keeps Any Any Any m _ k (λ _. l)
if-Keeps false m n k l = l

module _ (clock : String → ℕ) where
  expire_all-Keeps : (fs : List (String × Fault)) → Keeps Any Any (expire_all clock fs)
  unfolding expire_all
  expire_all-Keeps [] = λ w k p. (k, λ a e. tt)
  expire_all-Keeps (f ∷ fs) =
      if-Keeps _ (expire f.0) (expire_all clock fs) (expire-Keeps f.0) (expire_all-Keeps fs)

  monitor-Keeps : Keeps Any Any (monitor clock)
  unfolding monitor
  monitor-Keeps w k p =
      when-Keeps Any _ (expire_all clock w.run.faults) (expire_all-Keeps w.run.faults) w k p

module _ (clock : String → ℕ) (boot_id : String) where
  recover_all-Keeps : (fs : List (String × Fault)) → Keeps Any Any (recover_all clock boot_id fs)
  unfolding recover_all
  recover_all-Keeps [] = λ w k p. (k, λ a e. tt)
  recover_all-Keeps (f ∷ fs) =
      if-Keeps _ (catches _ (fault_failure f.0)) (recover_all clock boot_id fs)
        (catches-Keeping Known Any Any _ (fault_failure f.0)
          (taken_away f.0 (with_fault f.0 (put_in removed)) (λ r. refl)) (fault_failure-Keeps f.0))
        (recover_all-Keeps fs)

  recover-Keeps : Keeps Any Any (recover clock boot_id)
  unfolding recover
  recover-Keeps w k p =
      then-Keeps Any Any Any (when _ (recover_all clock boot_id w.run.faults)) _
        (when-Keeps Any _ (recover_all clock boot_id w.run.faults) (recover_all-Keeps w.run.faults))
        (λ _. save_any) w k p

-- What the engine does about faults: a job, a round of the monitor, a restart on the journal.
pub data Task : Type 0 where
  runs_job : ℕ → Operation → String → Task
  monitors : (String → ℕ) → Task
  restarts : (String → ℕ) → String → Task

abbrev loaded : World → World
loaded w = record w { run = w.journal_run; job = w.journal_job }

unfoldable pub perform : Task → World → World
perform (runs_job now o id) w = (work now o id w).0
perform (monitors clock) w = (monitor clock w).0
perform (restarts clock boot_id) w = (recover clock boot_id (loaded w)).0

abbrev pub Fits : Task → World → Type 0
Fits (runs_job now o id) w = Ready o id w
Fits (monitors clock) w = Unit
Fits (restarts clock boot_id) w = Unit

-- Whatever the backend and the journal answer, wherever a call throws, a cancellation is found or the
-- process is killed: if every fault that may be in place is live, in memory and in the journal, this
-- is so behind a job, a round of the monitor or a restart on the journal; a job that places a fault
-- is about one that is stored and not in place. A fault may be in place from the call that applies
-- it on, whether that returns or not, up to a call that removes it and returns.
pub perform-Known : (t : Task) (w : World) → Known w → Fits t w → Known (perform t w)
unfolding perform
perform-Known (runs_job now o id) w k f = (work-Keeps now o id w k f).0
perform-Known (monitors clock) w k f = (monitor-Keeps clock w k tt).0
perform-Known (restarts clock boot_id) w k f =
    (recover-Keeps clock boot_id (loaded w) (record { memory = k.journal; journal = k.journal })
      tt).0
