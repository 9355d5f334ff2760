-- ===== src/Runtime/Jobs/Changes.antt =====
-- What each event does to the jobs and the keys, in memory and in the journal.
use Prim.Native.String.{String}
use graphlab.Prelude.{
  ◌<◌, ◌≡◌, refl, ap, arith, length, Bool-cases, inl, inr, ◌⊎◌, Bool, true, false, not, [], ◌∷◌,
  Option, none, some, Result, ok, err, guard, ◌>>◌, if◌then◌else◌,
}
use graphlab.Runtime.Source.Store.{lookup, replace, Unique}
use graphlab.Runtime.Jobs.Params.{Failure, Members, fields, string}
use graphlab.Runtime.Jobs.Tables.{
  Job, Key, Stored, State, Answers, Submission, is_pending, any_pending, save,
}
use graphlab.Runtime.Jobs.Runs.{cancel, cancel_found, cancel_named, request_cancel}
use graphlab.Runtime.Jobs.{submitted, has_capacity, not_busy, commit, keyed, with_key}
use graphlab.Runtime.Jobs.Recovery.{map_values, fail_job}
use graphlab.Runtime.Jobs.History.{is_queued, first_queued, taken, run_job as start_job}
use graphlab.Runtime.Jobs.Entries.{first_queued-found}

-- The job is the same job for its receipt.
abbrev pub Same : Job → Job → Type 0
Same i j = (j.run_id ≡ i.run_id) × (j.revision ≡ i.revision) × (j.fault_id ≡ i.fault_id)

abbrev pub SameReceipt : (Job → Job) → Type 0
SameReceipt f = (j : Job) → Same j (f j)

-- One change of what is stored, where `new` is the name that a new job would get.
pub data Change (less : String → String → Bool) (new : String) (d d' : Stored) : Type 0 where
  kept : d'.jobs ≡ d.jobs → d'.keys ≡ d.keys → Change less new d d'
  added :
      (key hash : String) (x : Submission)
      → any_pending d.jobs ≡ false
      → length d.jobs < 256
      → lookup d.keys key ≡ none
      → d' ≡ submitted less d key hash new x
      → Change less new d d'
  updated :
      (id : String) (f : Job → Job) (j : Job)
      → lookup d.jobs id ≡ some j
      → (is_pending (f j) ≡ true → is_pending j ≡ true)
      → SameReceipt f
      → d'.jobs ≡ replace id f d.jobs
      → d'.keys ≡ d.keys
      → Change less new d d'
  interrupts : d'.jobs ≡ map_values fail_job d.jobs → d'.keys ≡ d.keys → Change less new d d'

-- What is stored is a change of what was, in memory or in the journal.
abbrev pub Reached : (String → String → Bool) → String → State → Stored → Type 0
Reached less new s d = Change less new s.stored d ⊎ Change less new s.journal d

-- While the engine is not stopping, the journal has the jobs and keys that are in memory.
abbrev pub Synced : State → Type 0
Synced s = s.stopping ≡ false → (s.journal.jobs ≡ s.stored.jobs) × (s.journal.keys ≡ s.stored.keys)

pub record Steps (less : String → String → Bool) (new : String) (s s' : State) : Type 0 where
  pub memory : Reached less new s s'.stored
  pub journal : Reached less new s s'.journal
  pub synced : Synced s → Synced s'

pub bind-ok :
    {B : Type 0} (m : Result Failure (Unit {0})) (k : Result Failure B) (b : B)
    → (m >> k) ≡ ok b
    → (m ≡ ok tt) × (k ≡ ok b)
bind-ok (ok u) k b h = (refl, h)
bind-ok (err e) k b h = cc

guard-ok : (b : Bool) (e : Failure) → guard b e ≡ ok tt → b ≡ true
guard-ok true e h = refl
guard-ok false e h = cc

abbrev pub Room : Stored → Type 0
Room d = (any_pending d.jobs ≡ false) × (length d.jobs < 256)

pub room : (d : Stored) → has_capacity d ≡ ok tt → not_busy d ≡ ok tt → Room d
room d h g =
    let a = guard-ok _ _ h in let b = guard-ok _ _ g in (ground (arith, b), ground (arith, a))

module _ (less : String → String → Bool) where
  pub unchanged : (new : String) (s : State) → Steps less new s s
  unchanged new s = record {
    memory = inl (kept refl refl);
    journal = inr (kept refl refl);
    synced = λ h. h;
  }

  pub save-Steps :
      {A : Type 0} (new : String) (s t : State) (saved : Bool) (a : A)
      → Reached less new s t.stored
      → t.journal ≡ s.journal
      → Steps less new s (save t saved a).0
  unfolding save
  save-Steps new s t true a h e = record { memory = h; journal = h; synced = λ g z. (refl, refl) }
  save-Steps new s t false a h e = record {
    memory = h;
    journal = inr (kept (ap (λ (d : Stored). d.jobs) e) (ap (λ (d : Stored). d.keys) e));
    synced = λ g z. absurd (cc z);
  }

  commit-Steps :
      (s : State) (key hash : String) (k : Answers) (x : Result Failure Submission)
      → ((y : Submission) → x ≡ ok y → Room s.stored)
      → lookup s.stored.keys key ≡ none
      → Steps less k.job_id s (commit less s key hash k x).0
  unfolding commit
  commit-Steps s key hash k (err e) h n = unchanged k.job_id s
  commit-Steps s key hash k (ok y) h n =
      let (p, q) = h y refl in
      save-Steps k.job_id s _ k.saved _ (inl (added key hash y p q n refl)) refl

  keyed-Steps :
      (s : State) (key hash : String) (k : Answers) (x : Result Failure Submission) (o : Option Key)
      → lookup s.stored.keys key ≡ o
      → ((y : Submission) → x ≡ ok y → Room s.stored)
      → Steps less k.job_id s (keyed less s key hash k x o).0
  unfolding keyed
  keyed-Steps s key hash k x none e h = commit-Steps s key hash k x h e
  keyed-Steps s key hash k x (some old) e h = unchanged k.job_id s

  pub with_key-Steps :
      (s : State) (hash : String) (k : Answers) (x : Result Failure Submission)
      (r : Result Failure String)
      → ((y : Submission) → x ≡ ok y → Room s.stored)
      → Steps less k.job_id s (with_key less s hash k x r).0
  unfolding with_key
  with_key-Steps s hash k x (err e) h = unchanged k.job_id s
  with_key-Steps s hash k x (ok key) h =
      keyed-Steps s key hash k x (lookup s.stored.keys key) refl h

  pub cancel-Steps :
      (new : String) (s : State) (p : Members) (saved : Bool)
      → Steps less new s (cancel s p saved).0
  unfolding cancel
  cancel-Steps new s p saved = named (fields p ("id" ∷ []) >> string p "id")
    where
      found :
          (id : String) (o : Option Job)
          → lookup s.stored.jobs id ≡ o
          → Steps less new s (cancel_found s id saved o).0
      found id none e = unchanged new s
      found id (some j) e = elim (Bool-cases (not (is_pending j))) [
        | inl a ↦ rw a (unchanged new s)
        | inr a ↦ rw a (
            if_saved _ _ (
              save-Steps new s _ saved _
                (inl (updated id request_cancel j e (λ h. h) (λ j. (refl, refl, refl)) refl refl))
                refl))
      ]
        where
          if_saved :
              (b : Bool) (t : State × Result Failure Job)
              → Steps less new s t.0
              → Steps less new s
                  (if b then (s, err Failure.cleanup_operations_not_cancellable) else t).0
          if_saved true t h = unchanged new s
          if_saved false t h = h

      named : (r : Result Failure String) → Steps less new s (cancel_named s saved r).0
      named (err e) = unchanged new s
      named (ok id) = found id (lookup s.stored.jobs id) refl

  pub taken-Steps :
      (new : String) (s : State) (saved : Bool) (o : Option String)
      → Unique s.stored.jobs
      → first_queued s.stored.jobs ≡ o
      → Steps less new s (taken s saved o)
  taken-Steps new s saved none u e = unchanged new s
  taken-Steps new s saved (some id) u e =
      let (j, l, q) = first_queued-found s.stored.jobs id u e in
      save-Steps new s _ saved _
        (inl (
          updated id start_job j l (λ _. is_queued-is_pending j q) (λ j. (refl, refl, refl)) refl
            refl))
        refl
    where
      is_queued-is_pending : (j : Job) → is_queued j ≡ true → is_pending j ≡ true
      is_queued-is_pending j h = elim (Bool-cases (is_pending j)) [
        | inl a ↦ a
        | inr a ↦ ground (arith, h, a)
      ]
