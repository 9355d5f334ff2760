-- ===== src/Runtime/Execution/Intents.antt =====
-- Which resources of a run may exist, and what the journal says of them; how each primitive step of a
-- job keeps the two together.
use Prim.Native.String.{String}
use text.Mathlib.Text.{◌==◌}
use text.Mathlib.TextEquality.{eq_iff}
use graphlab.Prelude.{
  ◌≡◌, subst, ap, sym, ◌∙◌, Bool, true, false, not, ◌&&◌, ◌||◌, List, [], ◌∷◌, arith, Bool-cases,
  inl, inr,
}
use graphlab.Runtime.Execution.Cleanup.{is_removed}
use graphlab.Runtime.Execution.State.{
  Resource, Run, JobState, Call, prepare, remove, Effect, calls, Answer, works, fails, cancels,
  partly, reconciles, World, M, modify, get_run, set_job, noted, called, ask, call, saved, save,
  looked, is_cancelled,
}
use graphlab.Runtime.Machine.{
  Keeping, then-Keeping, returns, bound, ◌>>=◌, when, attempt, ignored, pure,
}

-- A resource may exist from the call that prepares it on, whatever that call answers, up to a call
-- that removes it and returns.
abbrev pub may_exist : List Effect → String → Bool
may_exist [] n = false
may_exist (calls c b ∷ t) n = elim c [
  | prepare k ↦ k == n || may_exist t n
  | remove k ↦ not (b && k == n) && may_exist t n
  | _ ↦ may_exist t n
]

-- The list has an entry for the resource that is not marked as removed.
abbrev pub listed : String → List Resource → Bool
listed n [] = false
listed n (r ∷ rs) = (r.key == n && not (is_removed r)) || listed n rs

-- Every resource that may exist is known, in memory and in the journal.
pub record Known (w : World) : Type 0 where
  pub memory : (n : String) → may_exist w.trace n ≡ true → listed n w.run.resources ≡ true
  pub journal : (n : String) → may_exist w.trace n ≡ true → listed n w.journal_run.resources ≡ true

-- A step keeps what is known in any case, and leads from `P` to `Q` where it returns.
abbrev pub Keeps : {A : Type 0} → (P Q : World → Type 0) → M A → Type 0
Keeps P Q m = Keeping Known P Q m

abbrev pub Any : World → Type 0
Any w = Unit

-- What is said of the resources in memory.
abbrev pub On : (List Resource → Type 0) → World → Type 0
On R w = R w.run.resources

-- A step that leaves the resources in memory as they are.
abbrev pub Steady : {A : Type 0} → M A → Type 1
Steady m = (R : List Resource → Type 0) → Keeps (On R) (On R) m

pub then-Keeps :
    {A B : Type 0} (P Q R : World → Type 0) (m : M A) (f : A → M B)
    → Keeps P Q m
    → ((a : A) → Keeps Q R (f a))
    → Keeps P R (m >>= f)
then-Keeps P Q R m f k l = then-Keeping Known P Q R m f k l

pub then-Steady :
    {A B : Type 0} (m : M A) (f : A → M B) → Steady m → ((a : A) → Steady (f a)) → Steady (m >>= f)
then-Steady m f k l R = then-Keeps (On R) (On R) (On R) m f (k R) (λ a. l a R)

pub when-Steady : (c : Bool) (m : M (Unit {0})) → Steady m → Steady (when c m)
when-Steady true m k = k
when-Steady false m k = λ R w h p. (h, λ a e. p)

-- The resources are as before.
abbrev pub SameResources : (Run → Run) → Type 0
SameResources f = (r : Run) → (f r).resources ≡ r.resources

pub modify-Known :
    (f : Run → Run) (w : World)
    → ((n : String) → listed n w.run.resources ≡ true → listed n (f w.run).resources ≡ true)
    → Known w
    → Known (record w { run = f w.run })
modify-Known f w g h = record { memory = λ n e. g n (h.memory n e); journal = h.journal }

pub modify-Steady : (f : Run → Run) → SameResources f → Steady (modify f)
modify-Steady f s R w h p =
    (modify-Known f w (λ n e. ap (listed n) (s w.run) ∙ e) h, λ a e. subst R (sym (s w.run)) p)

pub set_job-Steady : (s : JobState) → Steady (set_job s)
set_job-Steady s R w h p = (record { memory = h.memory; journal = h.journal }, λ a e. p)

pub get_run-Steady : Steady get_run
get_run-Steady R w h p = (h, λ a e. p)

-- What `P` says of the memory holds of the journal too, behind a save.
pub save-Keeps : (P : Run → Type 0) → Keeps (λ w. P w.run) (λ w. P w.run × P w.journal_run) save
unfolding save
save-Keeps P w h p = go w.answers
  where
    fine :
        (x : List Answer)
        → Known (record w { journal_run = w.run; journal_job = w.job; answers = x })
    fine x = record { memory = h.memory; journal = h.memory }

    broken : (x : List Answer) → Known (record w { stopping = true; answers = x })
    broken x = record { memory = h.memory; journal = h.journal }

    go :
        (x : List Answer)
        → Known (saved x w).0
          × ((a : Unit {0})
              → (saved x w).1 ≡ returns a
              → P (saved x w).0.run × P (saved x w).0.journal_run)
    go [] = (h, λ a e. cc)
    go (fails ∷ x) = (broken x, λ a e. cc)
    go (works ∷ x) = (fine x, λ a e. (p, p))
    go (cancels ∷ x) = (fine x, λ a e. (p, p))
    go (partly ∷ x) = (fine x, λ a e. (p, p))
    go (reconciles ∷ x) = (fine x, λ a e. (p, p))

pub save-Steady : Steady save
save-Steady R w h p = let k = save-Keeps (λ r. R r.resources) w h p in (k.0, λ a e. (k.1 a e).0)

pub is_cancelled-Steady : Steady is_cancelled
unfolding is_cancelled
is_cancelled-Steady R w h p = go w.stopping w.answers
  where
    fine : (b : Bool) (x : List Answer) → Known (record w { stopping = b; answers = x })
    fine b x = record { memory = h.memory; journal = h.journal }

    go :
        (b : Bool) (x : List Answer)
        → Known (looked b x w).0
          × ((a : Bool) → (looked b x w).1 ≡ returns a → On R (looked b x w).0)
    go true x = (h, λ a e. cc)
    go false [] = (h, λ a e. cc)
    go false (fails ∷ x) = (fine true x, λ a e. cc)
    go false (works ∷ x) = (fine w.stopping x, λ a e. p)
    go false (cancels ∷ x) = (fine w.stopping x, λ a e. p)
    go false (partly ∷ x) = (fine w.stopping x, λ a e. p)
    go false (reconciles ∷ x) = (fine w.stopping x, λ a e. p)

-- A call that neither prepares nor removes a resource.
abbrev pub IsPlain : Call → Type 0
IsPlain c = (t : List Effect) (b : Bool) (n : String) → may_exist (calls c b ∷ t) n ≡ may_exist t n

noted-Known :
    (c : Call) (b : Bool) (x : List Answer) (w : World)
    → ((n : String)
        → may_exist (calls c b ∷ w.trace) n ≡ true
        → (listed n w.run.resources ≡ true) × (listed n w.journal_run.resources ≡ true))
    → Known (noted w c b x)
noted-Known c b x w g = record { memory = λ n e. (g n e).0; journal = λ n e. (g n e).1 }

-- A call after which, whatever it answers, what may exist is known.
pub ask-Keeps :
    (P Q : World → Type 0) (c : Call)
    → ((w : World) (b : Bool) (n : String)
        → Known w
        → P w
        → may_exist (calls c b ∷ w.trace) n ≡ true
        → (listed n w.run.resources ≡ true) × (listed n w.journal_run.resources ≡ true))
    → ((w : World) (x : List Answer) → P w → Q (noted w c true x))
    → Keeps P Q (ask c)
unfolding ask
ask-Keeps P Q c g q w h p = go w.answers
  where
    fine : (b : Bool) (x : List Answer) → Known (noted w c b x)
    fine b x = noted-Known c b x w (λ n. g w b n h p)

    go :
        (x : List Answer)
        → Known (called c x w).0
          × ((a : Answer) → (called c x w).1 ≡ returns a → Q (called c x w).0)
    go [] = (fine false [], λ a e. cc)
    go (fails ∷ x) = (fine false x, λ a e. cc)
    go (works ∷ x) = (fine true x, λ a e. q w x p)
    go (cancels ∷ x) = (fine true x, λ a e. q w x p)
    go (partly ∷ x) = (fine true x, λ a e. q w x p)
    go (reconciles ∷ x) = (fine true x, λ a e. q w x p)

pub call-Keeps :
    (P Q : World → Type 0) (c : Call)
    → ((w : World) (b : Bool) (n : String)
        → Known w
        → P w
        → may_exist (calls c b ∷ w.trace) n ≡ true
        → (listed n w.run.resources ≡ true) × (listed n w.journal_run.resources ≡ true))
    → ((w : World) (x : List Answer) → P w → Q (noted w c true x))
    → Keeps P Q (call c)
unfolding call
call-Keeps P Q c g q =
    then-Keeps P Q Q (ask c) (λ _. pure tt) (ask-Keeps P Q c g q) (λ a w h p. (h, λ b e. p))

pub ask-Steady : (c : Call) → IsPlain c → Steady (ask c)
ask-Steady c plain R =
    ask-Keeps (On R) (On R) c
      (λ w b n h p e.
        let f : may_exist w.trace n ≡ true = sym (plain w.trace b n) ∙ e in
        (h.memory n f, h.journal n f))
      (λ w x p. p)

pub call-Steady : (c : Call) → IsPlain c → Steady (call c)
unfolding call
call-Steady c plain =
    then-Steady (ask c) (λ _. pure tt) (ask-Steady c plain) (λ a R w h p. (h, λ b e. p))

-- A plain call of which an exception is ignored.
pub attempt-Steady : (c : Call) → IsPlain c → Steady (attempt (call c))
unfolding call ask
attempt-Steady c plain R w h p = go w.answers
  where
    fine : (b : Bool) (x : List Answer) → Known (noted w c b x)
    fine b x = noted-Known c b x w λ n e.
        let f : may_exist w.trace n ≡ true = sym (plain w.trace b n) ∙ e in
        (h.memory n f, h.journal n f)

    go :
        (x : List Answer)
        → Known (ignored (bound (called c x w) (λ _. pure tt))).0
          × ((a : Unit {0})
              → (ignored (bound (called c x w) (λ _. pure tt))).1 ≡ returns a
              → On R (ignored (bound (called c x w) (λ _. pure tt))).0)
    go [] = (fine false [], λ a e. cc)
    go (fails ∷ x) = (fine false x, λ a e. p)
    go (works ∷ x) = (fine true x, λ a e. p)
    go (cancels ∷ x) = (fine true x, λ a e. p)
    go (partly ∷ x) = (fine true x, λ a e. p)
    go (reconciles ∷ x) = (fine true x, λ a e. p)

-- The two sides know a resource.
abbrev pub Lists : String → World → Type 0
Lists k w = (listed k w.run.resources ≡ true) × (listed k w.journal_run.resources ≡ true)

pub prepare-Keeps : (k : String) → Keeps (Lists k) Any (call (prepare k))
prepare-Keeps k =
    call-Keeps (Lists k) Any (prepare k)
      (λ w b n h p e. elim (Bool-cases (k == n)) [
        | inl s ↦
            let q : k ≡ n = (eq_iff k n).0 s in
            (
              ap (λ m. listed m w.run.resources) (sym q) ∙ p.0,
              ap (λ m. listed m w.journal_run.resources) (sym q) ∙ p.1,
            )
        | inr s ↦
            let f : may_exist w.trace n ≡ true = ground (arith, s, e) in
            (h.memory n f, h.journal n f)
      ])
      (λ w x p. tt)

-- The resource does not exist.
abbrev pub Gone : String → World → Type 0
Gone k w = may_exist w.trace k ≡ false

pub remove-Keeps : (k : String) → Keeps Any (Gone k) (call (remove k))
remove-Keeps k =
    call-Keeps Any (Gone k) (remove k)
      (λ w b n h p e.
        let f : may_exist w.trace n ≡ true = ground (arith, e) in (h.memory n f, h.journal n f))
      (λ w x p. ground (arith, eq_iff k k))
