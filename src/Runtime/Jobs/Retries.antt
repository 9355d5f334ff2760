-- ===== src/Runtime/Jobs/Retries.antt =====
-- A request for a job that is sent again.
use Prim.Native.String.{String}
use text.Mathlib.Text.{◌==◌}
use text.Mathlib.TextEquality.{eq_iff}
use graphlab.Prelude.{
  ℕ, ◌≡◌, refl, sym, ap, subst, ◌∙◌, inl, inr, Bool, true, false, List, Option, none, some,
  Option-cases, Bool-cases, Result, ok, err,
}
use graphlab.Runtime.Source.Store.{lookup}
use graphlab.Runtime.Source.Commands.{==_refl}
use graphlab.Runtime.Jobs.Params.{Failure, Members}
use graphlab.Runtime.Jobs.Tables.{Key, Stored, State, Answers, Receipt, Submission, save}
use graphlab.Runtime.Jobs.{
  Method, new_job, receipt, submitted, replayed, commit, keyed, with_key, dispatch,
}
use graphlab.Runtime.Jobs.History.{Event, asks, step, run}
use graphlab.Runtime.Jobs.Entries.{lookup-put}
use graphlab.Runtime.Jobs.Capacity.{Counted, step-Counted}
use graphlab.Runtime.Jobs.Keys.{Remembers, Spares, run-Remembers}
use graphlab.Runtime.Jobs.Requests.{HasRun, key_of, by_key, ok-HasRun, running_dispatch, refused}

module _ (to_string : ℕ → String) (digest : Method → Members → String)
    (less : String → String → Bool) where
  -- What an accepted request leaves.
  record Accepted (m : Method) (principal : ℕ) (p : Members) (r : Receipt) (s : State)
      : Type 0 where
    key : String
    has_key : key_of to_string m principal p ≡ ok key
    memory : Remembers key (digest m p) r s.stored
    journal : Remembers key (digest m p) r s.journal

  submitted-Remembers :
      (d : Stored) (key hash id : String) (x : Submission) (r : Receipt)
      → receipt id (new_job x) ≡ r
      → Remembers key hash r (submitted less d key hash id x)
  submitted-Remembers d key hash id x r e =
      subst (λ (r : Receipt). Remembers key hash r (submitted less d key hash id x)) e
        (unfold submitted in
          (
            lookup-put less key _ d.keys key ∙ rw (==_refl key) refl,
            new_job x,
            lookup-put less id (new_job x) d.jobs id ∙ rw (==_refl id) refl,
            refl,
          ))

  replayed-Remembers :
      (d : Stored) (key hash : String) (old : Key) (r : Receipt)
      → lookup d.keys key ≡ some old
      → replayed d old hash ≡ ok r
      → Remembers key hash r d
  replayed-Remembers d key hash old r l h = elim (Bool-cases (old.hash == hash)) [
    | inr q ↦ cc (rw q at h)
    | inl q ↦ elim (Option-cases (lookup d.jobs old.job_id)) [
      | inl n ↦ cc (rw (q, n) at h)
      | inr (j, n) ↦
          let e : ok (receipt old.job_id j) ≡ ok r = rw (q, n) at h in
          let e : receipt old.job_id j ≡ r = cc e in
          let hashes : old.hash ≡ hash = (eq_iff old.hash hash).0 q in
          let named = λ (h : String). some (record { hash = h; job_id = old.job_id }) in
          subst (λ (r : Receipt). Remembers key hash r d) e (l ∙ ap named hashes, j, n, refl)
    ]
  ]

  committed :
      (m : Method) (principal : ℕ) (p : Members) (k : Answers) (s : State) (key : String)
      (r : Receipt) (x : Result Failure Submission)
      → key_of to_string m principal p ≡ ok key
      → (commit less s key (digest m p) k x).1 ≡ ok r
      → Accepted m principal p r (commit less s key (digest m p) k x).0
  unfolding commit save
  committed m principal p k s key r (err e) f h = absurd (cc h)
  committed m principal p k s key r (ok y) f h = on k.saved h
    where
      d : Stored
      d = submitted less s.stored key (digest m p) k.job_id y

      on :
          (saved : Bool)
          → (save (record s { stored = d }) saved (receipt k.job_id (new_job y))).1 ≡ ok r
          → Accepted m principal p r
              (save (record s { stored = d }) saved (receipt k.job_id (new_job y))).0
      on true h =
          let m = submitted-Remembers s.stored key (digest m p) k.job_id y r (cc h) in
          record { key = key; has_key = f; memory = m; journal = m }
      on false h = absurd (cc h)

  answered :
      (m : Method) (principal : ℕ) (p : Members) (k : Answers) (s : State) (key : String)
      (r : Receipt) (x : Result Failure Submission) (o : Option Key)
      → lookup s.stored.keys key ≡ o
      → (s.journal.jobs ≡ s.stored.jobs) × (s.journal.keys ≡ s.stored.keys)
      → key_of to_string m principal p ≡ ok key
      → (keyed less s key (digest m p) k x o).1 ≡ ok r
      → Accepted m principal p r (keyed less s key (digest m p) k x o).0
  unfolding keyed
  answered m principal p k s key r x none l y f h = committed m principal p k s key r x f h
  answered m principal p k s key r x (some old) l y f h =
      let m = replayed-Remembers s.stored key (digest m p) old r l h in
      record { key = key; has_key = f; memory = m; journal = (rw y.1 m.0, m.1, rw y.0 m.2, m.3) }

  accepted :
      (m : Method) (principal : ℕ) (p : Members) (k : Answers) (s : State) (r : Receipt)
      (x : Result Failure Submission) (n : Result Failure String)
      → (s.journal.jobs ≡ s.stored.jobs) × (s.journal.keys ≡ s.stored.keys)
      → key_of to_string m principal p ≡ n
      → (with_key less s (digest m p) k x n).1 ≡ ok r
      → Accepted m principal p r (with_key less s (digest m p) k x n).0
  unfolding with_key
  accepted m principal p k s r x (err e) y f h = absurd (cc h)
  accepted m principal p k s r x (ok key) y f h =
      answered m principal p k s key r x (lookup s.stored.keys key) refl y f h

  repeated :
      (m : Method) (principal : ℕ) (p : Members) (k : Answers) (s : State) (key : String)
      (r : Receipt) (x : Result Failure Submission)
      → key_of to_string m principal p ≡ ok key
      → Remembers key (digest m p) r s.stored
      → with_key less s (digest m p) k x (key_of to_string m principal p) ≡ (s, ok r)
  unfolding with_key keyed
  repeated m principal p k s key r x f (l, j, e, q) =
      rw (f, l, ==_refl (digest m p), e) (ap (λ (r : Receipt). (s, ok r)) q)

  first :
      (m : Method) (s : State) (principal : ℕ) (p : Members) (k : Answers) (r : Receipt)
      → Counted s
      → (dispatch to_string digest less m s principal p k).1 ≡ ok r
      → Accepted m principal p r (dispatch to_string digest less m s principal p k).0
  first m s principal p k r v h = elim (Bool-cases s.stopping) [
    | inl e ↦ absurd (cc (refused to_string digest less m s principal p k e, h))
    | inr e ↦
        let d = running_dispatch to_string digest less m s principal p k e in
        let g = ap (λ (x : State × Result Failure Receipt). x.1) (sym d) ∙ h in
        let (x, b) =
          by_key to_string digest less m s principal p k
            (ok-HasRun to_string digest less m s principal p k r g) in
        let g' = ap (λ (x : State × Result Failure Receipt). x.1) (sym b) ∙ g in
        subst (λ (x : State × Result Failure Receipt). Accepted m principal p r x.0) (sym b ∙ sym d)
          (accepted m principal p k s r x (key_of to_string m principal p) (v.synced e) refl g')
  ]

  -- From a state in which the counts of jobs hold, each job has its own name, and the journal has
  -- the jobs and keys that are in memory: after a request was accepted, to start a run, to operate on
  -- one, to apply a fault or to remove one, and after any events, restarts on the journal included,
  -- that give no new job the name of its job, the same request of the same principal is answered with
  -- the same receipt where the engine is not stopping and, for a fault, the engine still has the run,
  -- whatever the catalog, the backend and the journal would answer, and the state does not change.
  pub accepted-run-repeated :
      (s : State) (m : Method) (principal : ℕ) (p : Members) (k k' : Answers) (r : Receipt)
      (es : List Event)
      → Counted s
      → (dispatch to_string digest less m s principal p k).1 ≡ ok r
      → Spares r.job_id es
      → (run to_string digest less
          (step to_string digest less s (asks m principal p k))
          es).stopping
        ≡ false
      → HasRun m
          (run to_string digest less
            (step to_string digest less s (asks m principal p k))
            es).stored
          p
      → let final =
          run to_string digest less (step to_string digest less s (asks m principal p k)) es in
        dispatch to_string digest less m final principal p k' ≡ (final, ok r)
  accepted-run-repeated s m principal p k k' r es v h n f q =
      let s' = step to_string digest less s (asks m principal p k) in
      let final = run to_string digest less s' es in
      let a : Accepted m principal p r s' = unfold step in first m s principal p k r v h in
      let v' = step-Counted to_string digest less s (asks m principal p k) v in
      let l =
        run-Remembers to_string digest less a.key (digest m p) r s' es n v' a.memory a.journal in
      let (x, b) = by_key to_string digest less m final principal p k' q in
      running_dispatch to_string digest less m final principal p k' f
      ∙ b
      ∙ repeated m principal p k' final a.key r x a.has_key l
