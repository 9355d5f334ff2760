-- ===== src/Runtime/Jobs/Keys.antt =====
-- What the keys remember, over any events.
use Prim.Native.String.{String}
use text.Mathlib.Text.{◌==◌}
use text.Mathlib.TextEquality.{eq_iff}
use graphlab.Prelude.{
  ℕ, ◌≡◌, refl, sym, ap, ◌∙◌, inl, inr, Bool, false, List, [], ◌∷◌, none, some, Bool-cases, arith,
}
use graphlab.Runtime.Source.Store.{lookup, lookup-replace}
use graphlab.Runtime.Jobs.Params.{Members}
use graphlab.Runtime.Jobs.Tables.{Job, Stored, State, Receipt}
use graphlab.Runtime.Jobs.{Method, new_job, receipt, submitted}
use graphlab.Runtime.Jobs.Recovery.{fail_job}
use graphlab.Runtime.Jobs.History.{Event, step, run}
use graphlab.Runtime.Jobs.Entries.{lookup-put, lookup-map_values}
use graphlab.Runtime.Jobs.Changes.{Change, kept, added, updated, interrupts, Reached, Same}
use graphlab.Runtime.Jobs.Reach.{new_name, step-Steps}
use graphlab.Runtime.Jobs.Capacity.{Counted, step-Counted}

-- The key is stored with the hash of its request and the job of its receipt.
abbrev pub Remembers : String → String → Receipt → Stored → Type 0
Remembers key hash r d =
    (lookup d.keys key ≡ some (record { hash = hash; job_id = r.job_id }))
    × (j : Job) × (lookup d.jobs r.job_id ≡ some j)
    × (receipt r.job_id j ≡ r)

-- No event gives a new job this name.
abbrev pub Spares : String → List Event → Type 0
Spares id [] = Unit
Spares id (e ∷ es) = ((new_name e == id) ≡ false) × Spares id es

Same-receipt :
    (id : String) (r : Receipt) (i j : Job) → Same i j → receipt id i ≡ r → receipt id j ≡ r
Same-receipt id r i j h e = let f : receipt id j ≡ receipt id i = rw (h.0, h.1, h.2) refl in f ∙ e

fail_job-Same : (j : Job) → Same j (fail_job j)
fail_job-Same j = (ground arith, ground arith, ground arith)

module _ (less : String → String → Bool) (key hash : String) (r : Receipt) where
  change-Remembers :
      (new : String) (d d' : Stored)
      → (new == r.job_id) ≡ false
      → Change less new d d'
      → Remembers key hash r d
      → Remembers key hash r d'
  change-Remembers new d d' n (kept e f) (k, j, l, s) = (rw f k, j, rw e l, s)
  change-Remembers new d d' n (added key' hash' x a b c e) (k, j, l, s) = rw e (
      unfold submitted in
      (
        elim (Bool-cases (key' == key)) [
          | inl q ↦
              let z : lookup d.keys key ≡ none =
                ap (lookup d.keys) (sym ((eq_iff key' key).0 q)) ∙ c in
              absurd (cc (z, k))
          | inr q ↦ lookup-put less key' _ d.keys key ∙ rw q k
        ],
        j,
        lookup-put less new (new_job x) d.jobs r.job_id ∙ rw n l,
        s,
      ))
  change-Remembers new d d' n (updated id f i a b g e e') (k, j, l, s) =
      elim (Bool-cases (id == r.job_id)) [
        | inl q ↦ (
          rw e' k,
          f j,
          rw e (lookup-replace id f d.jobs r.job_id ∙ rw (q, l) refl),
          Same-receipt r.job_id r j (f j) (g j) s,
        )
        | inr q ↦ (rw e' k, j, rw e (lookup-replace id f d.jobs r.job_id ∙ rw q l), s)
      ]
  change-Remembers new d d' n (interrupts e f) (k, j, l, s) = (
    rw f k,
    fail_job j,
    rw e (lookup-map_values fail_job d.jobs r.job_id ∙ rw l refl),
    Same-receipt r.job_id r j (fail_job j) (fail_job-Same j) s,
  )

  Reached-Remembers :
      (new : String) (s : State) (d : Stored)
      → (new == r.job_id) ≡ false
      → Reached less new s d
      → Remembers key hash r s.stored
      → Remembers key hash r s.journal
      → Remembers key hash r d
  Reached-Remembers new s d n (inl c) h g = change-Remembers new s.stored d n c h
  Reached-Remembers new s d n (inr c) h g = change-Remembers new s.journal d n c g

module _ (to_string : ℕ → String) (digest : Method → Members → String)
    (less : String → String → Bool) where
  pub run-Remembers :
      (key hash : String) (r : Receipt) (s : State) (es : List Event)
      → Spares r.job_id es
      → Counted s
      → Remembers key hash r s.stored
      → Remembers key hash r s.journal
      → Remembers key hash r (run to_string digest less s es).stored
  unfolding run
  run-Remembers key hash r s [] n v h g = h
  run-Remembers key hash r s (e ∷ es) n v h g =
      let c = step-Steps to_string digest less s e v.memory.unique in
      run-Remembers key hash r (step to_string digest less s e) es n.1
        (step-Counted to_string digest less s e v)
        (Reached-Remembers less key hash r (new_name e) s _ n.0 c.memory h g)
        (Reached-Remembers less key hash r (new_name e) s _ n.0 c.journal h g)
