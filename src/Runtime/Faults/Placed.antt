-- ===== src/Runtime/Faults/Placed.antt =====
-- Which faults may be in place, and how each primitive step keeps them live in memory and in the
-- journal.
use Prim.Native.String.{String}
use text.Mathlib.Text.{◌==◌}
use text.Mathlib.TextEquality.{eq_iff}
use graphlab.Prelude.{
  ◌≡◌, refl, ap, sym, ◌∙◌, Bool, true, false, not, ◌&&◌, ◌||◌, List, [], ◌∷◌, some, Option-cases,
  arith, Bool-cases, inl, inr,
}
use graphlab.Runtime.Machine.{Outcome, returns, throws, killed, Keeping, when, attempt, ignored}
use graphlab.Runtime.Source.Store.{lookup, replace, lookup-replace}
use graphlab.Runtime.Source.Commands.{==_refl}
use graphlab.Runtime.Execution.State.{JobState}
use graphlab.Runtime.Faults.{
  Fault, Run, Call, apply, remove, quiesce, Effect, calls, Answer, works, fails, cancels, World, M,
  modify, set_job, noted, called, call, saved, save, looked, is_cancelled, is_live, live_in,
  live_at,
}

-- A fault may be in place from the call that applies it on, whatever that call answers, up to a call
-- that removes it and returns.
abbrev pub in_place : List Effect → String → Bool
in_place [] n = false
in_place (calls c b ∷ t) n = elim c [
  | apply k ↦ k == n || in_place t n
  | remove k ↦ not (b && k == n) && in_place t n
  | quiesce ↦ in_place t n
]

-- Every fault that may be in place is live, in memory and in the journal.
pub record Known (w : World) : Type 0 where
  pub memory : (n : String) → in_place w.trace n ≡ true → live_at w.run.faults n ≡ true
  pub journal : (n : String) → in_place w.trace n ≡ true → live_at w.journal_run.faults n ≡ true

abbrev pub Any : World → Type 0
Any w = Unit

abbrev pub Has : String → World → Type 0
Has n w = (f : Fault) × (lookup w.run.faults n ≡ some f)

abbrev pub Live : String → World → Type 0
Live n w = live_at w.run.faults n ≡ true

abbrev pub LiveInBoth : String → World → Type 0
LiveInBoth n w = (live_at w.run.faults n ≡ true) × (live_at w.journal_run.faults n ≡ true)

abbrev pub Gone : String → World → Type 0
Gone n w = in_place w.trace n ≡ false

abbrev pub Keeps : {A : Type 0} → (P Q : World → Type 0) → M A → Type 0
Keeps P Q m = Keeping Known P Q m

live-Has :
    (fs : List (String × Fault)) (n : String)
    → live_at fs n ≡ true
    → (f : Fault) × (lookup fs n ≡ some f)
live-Has fs n h = elim (Option-cases (lookup fs n)) [
  | inl e ↦ absurd (cc (rw e at h))
  | inr (f, e) ↦ (f, e)
]

pub Live-Has : (n : String) (w : World) → Live n w → Has n w
Live-Has n w h = live-Has w.run.faults n h

live_at-replace :
    (id n : String) (g : Fault → Fault) (fs : List (String × Fault))
    → ((f : Fault) → is_live (g f) ≡ true)
    → live_at fs n ≡ true
    → live_at (replace id g fs) n ≡ true
live_at-replace id n g fs l h = elim (Bool-cases (id == n)) [
  | inl e ↦
      let (f, q) = live-Has fs n h in
      let z : lookup (replace id g fs) n ≡ some (g f) = lookup-replace id g fs n ∙ rw (e, q) refl in
      ap live_in z ∙ l f
  | inr e ↦ ap live_in (lookup-replace id g fs n ∙ rw e refl) ∙ h
]

-- A change of the run that makes one fault live, or leaves it so.
pub live-Keeps :
    (id : String) (g : Fault → Fault) (h : Run → Run)
    → ((f : Fault) → is_live (g f) ≡ true)
    → ((r : Run) → (h r).faults ≡ replace id g r.faults)
    → Keeps Any Any (modify h)
live-Keeps id g h l e w k p = (
  record {
    memory = λ n q.
        ap (λ fs. live_at fs n) (e w.run) ∙ live_at-replace id n g w.run.faults l (k.memory n q);
    journal = k.journal;
  },
  λ a c. tt,
)

pub start-Keeps :
    (id : String) (g : Fault → Fault) (h : Run → Run)
    → ((f : Fault) → is_live (g f) ≡ true)
    → ((r : Run) → (h r).faults ≡ replace id g r.faults)
    → Keeps (Has id) (Live id) (modify h)
start-Keeps id g h l e w k p =
    let z : lookup (replace id g w.run.faults) id ≡ some (g p.0) =
      lookup-replace id g w.run.faults id ∙ rw (==_refl id, p.1) refl in
    (
      (live-Keeps id g h l e w k tt).0,
      λ a c. ap (λ fs. live_at fs id) (e w.run) ∙ ap live_in z ∙ l p.0,
    )

-- A change of a fault that is not in place.
pub gone-Keeps :
    (id : String) (g : Fault → Fault) (h : Run → Run)
    → ((r : Run) → (h r).faults ≡ replace id g r.faults)
    → Keeps (Gone id) Any (modify h)
gone-Keeps id g h e w k p = (
  record {
    memory = λ n q. elim (Bool-cases (id == n)) [
      | inl s ↦
          let z : in_place w.trace n ≡ false =
            ap (in_place w.trace) (sym ((eq_iff id n).0 s)) ∙ p in
          absurd (cc (z, q))
      | inr s ↦
          ap (λ fs. live_at fs n) (e w.run)
          ∙ ap live_in (lookup-replace id g w.run.faults n ∙ rw s refl)
          ∙ k.memory n q
    ];
    journal = k.journal;
  },
  λ a c. tt,
)

pub same-Keeps : (h : Run → Run) → ((r : Run) → (h r).faults ≡ r.faults) → Keeps Any Any (modify h)
same-Keeps h e w k p = (
  record { memory = λ n q. ap (λ fs. live_at fs n) (e w.run) ∙ k.memory n q; journal = k.journal },
  λ a c. tt,
)

pub set_job-Keeps : (s : JobState) → Keeps Any Any (set_job s)
set_job-Keeps s w k p = (record { memory = k.memory; journal = k.journal }, λ a c. tt)

-- Of the state only what is said of the faults and of the calls matters to a save.
pub save-Keeps :
    (P Q : World → Type 0)
    → ((w : World) (rest : List Answer)
        → P w
        → Q (record w { journal_run = w.run; journal_job = w.job; answers = rest }))
    → Keeps P Q save
unfolding save
save-Keeps P Q f w k p = go w.answers
  where
    go :
        (as_is : List Answer)
        → Known (saved as_is w).0
          × ((a : Unit {0}) → (saved as_is w).1 ≡ returns a → Q (saved as_is w).0)
    go [] = (k, λ a c. cc)
    go (fails ∷ rest) = (record { memory = k.memory; journal = k.journal }, λ a c. cc)
    go (works ∷ rest) = (record { memory = k.memory; journal = k.memory }, λ a c. f w rest p)
    go (cancels ∷ rest) = (record { memory = k.memory; journal = k.memory }, λ a c. f w rest p)

pub is_cancelled-Keeps :
    (P : World → Type 0)
    → ((w : World) (rest : List Answer) → P w → P (record w { answers = rest }))
    → Keeps P P is_cancelled
unfolding is_cancelled
is_cancelled-Keeps P f w k p = go w.answers
  where
    go :
        (as_is : List Answer)
        → Known (looked as_is w).0
          × ((a : Bool) → (looked as_is w).1 ≡ returns a → P (looked as_is w).0)
    go [] = (k, λ a c. cc)
    go (fails ∷ rest) = (record { memory = k.memory; journal = k.journal }, λ a c. f w rest p)
    go (works ∷ rest) = (record { memory = k.memory; journal = k.journal }, λ a c. f w rest p)
    go (cancels ∷ rest) = (record { memory = k.memory; journal = k.journal }, λ a c. f w rest p)

-- A call whose faults in place are known already, whatever it answers.
pub call-Keeps :
    (P Q : World → Type 0) (c : Call)
    → ((w : World) (b : Bool) (n : String)
        → Known w
        → P w
        → in_place (calls c b ∷ w.trace) n ≡ true
        → (live_at w.run.faults n ≡ true) × (live_at w.journal_run.faults n ≡ true))
    → ((w : World) (rest : List Answer) → P w → Q (noted w c true rest))
    → Keeps P Q (call c)
unfolding call
call-Keeps P Q c f g w k p = go w.answers
  where
    known : (b : Bool) (rest : List Answer) → Known (noted w c b rest)
    known b rest = record { memory = λ n e. (f w b n k p e).0; journal = λ n e. (f w b n k p e).1 }

    go :
        (as_is : List Answer)
        → Known (called c as_is w).0
          × ((a : Unit {0}) → (called c as_is w).1 ≡ returns a → Q (called c as_is w).0)
    go [] = (known false [], λ a e. cc)
    go (fails ∷ rest) = (known false rest, λ a e. cc)
    go (works ∷ rest) = (known true rest, λ a e. g w rest p)
    go (cancels ∷ rest) = (known true rest, λ a e. g w rest p)

pub apply-Keeps : (id : String) → Keeps (LiveInBoth id) Any (call (apply id))
apply-Keeps id =
    call-Keeps (LiveInBoth id) Any (apply id)
      (λ w b n k p e. elim (Bool-cases (id == n)) [
        | inl s ↦
            let q = (eq_iff id n).0 s in
            (
              ap (live_at w.run.faults) (sym q) ∙ p.0,
              ap (live_at w.journal_run.faults) (sym q) ∙ p.1,
            )
        | inr s ↦
            let f : in_place w.trace n ≡ true = ground (arith, e, s) in
            (k.memory n f, k.journal n f)
      ])
      (λ w rest p. tt)

pub remove-Keeps : (id : String) → Keeps Any (Gone id) (call (remove id))
remove-Keeps id =
    call-Keeps Any (Gone id) (remove id)
      (λ w b n k p e.
        let f : in_place w.trace n ≡ true = ground (arith, e) in (k.memory n f, k.journal n f))
      (λ w rest p. ground (arith, eq_iff id id))

pub quiesce-Keeps : Keeps Any Any (call quiesce)
quiesce-Keeps =
    call-Keeps Any Any quiesce (λ w b n k p e. (k.memory n e, k.journal n e)) (λ w rest p. tt)

pub attempt-Keeps : Keeps Any Any (attempt (call quiesce))
attempt-Keeps w k p = go (call quiesce w) (quiesce-Keeps w k p).0
  where
    go :
        (x : World × Outcome (Unit {0}))
        → Known x.0
        → Known (ignored x).0 × ((b : Unit {0}) → (ignored x).1 ≡ returns b → Unit {0})
    go (v, returns a) z = (z, λ b c. tt)
    go (v, throws) z = (z, λ b c. tt)
    go (v, killed) z = (z, λ b c. tt)

pub when-Keeps :
    (P : World → Type 0) (c : Bool) (m : M (Unit {0})) → Keeps P P m → Keeps P P (when c m)
when-Keeps P true m k = k
when-Keeps P false m k = λ w h p. (h, λ a e. p)
