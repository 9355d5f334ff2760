-- ===== src/Runtime/Jobs/Capacity.antt =====
-- How many jobs there are, over any events.
use Prim.Native.String.{String}
use graphlab.Prelude.{Bool, ℕ, ◌≤◌, arith, length, inl, inr, List, [], ◌∷◌}
use graphlab.Runtime.Source.Store.{Unique, length-replace, replace-Unique}
use graphlab.Runtime.Jobs.Params.{Members}
use graphlab.Runtime.Jobs.Tables.{Stored, State}
use graphlab.Runtime.Jobs.{Method, new_job, submitted}
use graphlab.Runtime.Jobs.Recovery.{fail_job}
use graphlab.Runtime.Jobs.History.{Event, step, run}
use graphlab.Runtime.Jobs.Entries.{
  pending_jobs, length-put, put-Unique, pending-put, pending-replace, pending-fail_job,
  any_pending-none, length-map_values, map_values-Unique,
}
use graphlab.Runtime.Jobs.Changes.{Change, kept, added, updated, interrupts, Reached, Synced}
use graphlab.Runtime.Jobs.Reach.{new_name, step-Steps}

-- At most one job is queued or running, at most 256 are kept, each under its own name.
pub record Bounded (d : Stored) : Type 0 where
  pub single : pending_jobs d.jobs ≤ 1
  pub few : length d.jobs ≤ 256
  pub unique : Unique d.jobs

pub record Counted (s : State) : Type 0 where
  pub memory : Bounded s.stored
  pub journal : Bounded s.journal
  pub synced : Synced s

module _ (less : String → String → Bool) where
  change-Bounded : (new : String) (d d' : Stored) → Change less new d d' → Bounded d → Bounded d'
  change-Bounded new d d' (kept e f) h = record {
    single = rw e h.single;
    few = rw e h.few;
    unique = rw e h.unique;
  }
  change-Bounded new d d' (added key hash x n l o e) h = rw e (
      unfold submitted in
      record {
        single = omega (arith, pending-put less new (new_job x) d.jobs, any_pending-none d.jobs n);
        few = omega (arith, length-put less new (new_job x) d.jobs, l);
        unique = put-Unique less new (new_job x) d.jobs h.unique;
      })
  change-Bounded new d d' (updated id f j l p r e k) h = record {
    single = rw e (omega (arith, pending-replace id f d.jobs j l p, h.single));
    few = rw e (omega (arith, length-replace id f d.jobs, h.few));
    unique = rw e (replace-Unique id f d.jobs h.unique);
  }
  change-Bounded new d d' (interrupts e k) h = record {
    single = rw e (omega (arith, pending-fail_job d.jobs));
    few = rw e (omega (arith, length-map_values fail_job d.jobs, h.few));
    unique = rw e (map_values-Unique fail_job d.jobs h.unique);
  }

  Reached-Bounded :
      (new : String) (s : State) (d : Stored) → Reached less new s d → Counted s → Bounded d
  Reached-Bounded new s d (inl c) h = change-Bounded new s.stored d c h.memory
  Reached-Bounded new s d (inr c) h = change-Bounded new s.journal d c h.journal

module _ (to_string : ℕ → String) (digest : Method → Members → String)
    (less : String → String → Bool) where
  pub step-Counted : (s : State) (e : Event) → Counted s → Counted (step to_string digest less s e)
  step-Counted s e h =
      let c = step-Steps to_string digest less s e h.memory.unique in
      record {
        memory = Reached-Bounded less (new_name e) s _ c.memory h;
        journal = Reached-Bounded less (new_name e) s _ c.journal h;
        synced = c.synced h.synced;
      }

  -- From a state in which, in memory and in the journal, at most one job is queued or running and at
  -- most 256 are kept, each under its own name, and in which the journal has the jobs and keys that
  -- are in memory unless the engine is stopping: this stays so over any requests for jobs and for
  -- their cancellation, whatever the catalog, the backend and the journal answer and whatever names
  -- new jobs get, over the worker's steps, changes of runs and restarts on the journal.
  pub run-Counted :
      (s : State) (es : List Event) → Counted s → Counted (run to_string digest less s es)
  unfolding run
  run-Counted s [] h = h
  run-Counted s (e ∷ es) h = run-Counted (step to_string digest less s e) es (step-Counted s e h)
