-- ===== src/Runtime/Source/History.antt =====
-- Source commands over any interleaving of requests, of the worker's two halves and of what the rest
-- of the engine does.
use Prim.Native.String.{String}
use graphlab.Prelude.{
  ℕ, ◌≤◌, ◌<◌, ◌≡◌, inl, inr, refl, Bool, true, false, List, [], ◌∷◌, length, Result, Result-cases,
  ok, err, Option, none, some, arith, Bool-cases, Option-cases, ◌>>◌,
}
use graphlab.Runtime.Source.Commands.{Apart}
use graphlab.Runtime.Source.Requests.{Failure, Params, Status, same_members, value, validate}
use graphlab.Runtime.Source.Store.{Unique, lookup, place}
use graphlab.Runtime.Source.{
  Run, State, Command, Answers, Execution, is_requested, requests, is_pending, targeted, has_room,
  is_capable, admit, save, new_command, source_dispatch, pick, execute, finish,
}

-- What can happen: a request, a change of runs and jobs elsewhere, and the halves of `source_work`.
pub data Event : Type 0 where
  asks : ℕ → Params → Answers → Event
  changes : List (String × Run) → List String → Event
  picks : Event
  finishes : Execution → Bool → Event

-- The one worker holds the name of the command that it executes, with its copies of the command and
-- of the run.
pub record System : Type 0 where
  pub state : State
  pub worker : Option (String × Command × Option Run)

abbrev pub taken : State → Option (String × Command) → Option (String × Command × Option Run)
taken s none = none
taken s (some (key, c)) = some (key, c, lookup s.runs (value c.request "runId"))

-- The worker takes a command where it holds none.
abbrev pub picked : State → Option (String × Command × Option Run) → System
picked s none = record { state = s; worker = taken s (pick s.commands) }
picked s (some w) = record { state = s; worker = some w }

-- It executes the command that it holds and records the outcome.
abbrev pub executed : State → Option (String × Command × Option Run) → Execution → Bool → System
executed s none x saved = record { state = s; worker = none }
executed s (some (key, c, r)) x saved = record {
  state = (finish s key (execute r c x) saved).0;
  worker = none;
}

module _ (digest : ℕ → String → String) (less : String → String → Bool) where
  unfoldable pub step : System → Event → System
  step y (asks principal p k) = record y {
    state = (source_dispatch digest less y.state principal p k).0;
  }
  step y (changes runs jobs) = record y { state = record y.state { runs = runs; jobs = jobs } }
  step y picks = picked y.state y.worker
  step y (finishes x saved) = executed y.state y.worker x saved

  unfoldable pub run : System → List Event → System
  unfolding step
  run y [] = y
  run y (e ∷ es) = run (step y e) es

abbrev pub awaited : Option Command → Bool
awaited none = false
awaited (some c) = is_requested c

abbrev pub Executes : List (String × Command) → Option (String × Command × Option Run) → Type 0
Executes cs none = Unit
Executes cs (some (key, c, r)) = lookup cs key ≡ some c × (is_requested c ≡ true)

-- What holds between two events.
pub record Sound (y : System) : Type 0 where
  pub few : requests y.state.commands ≤ 8
  pub stored : length y.state.commands ≤ 256
  pub unique : Unique y.state.commands
  pub distinct : Apart y.state.commands
  pub executes : Executes y.state.commands y.worker

-- What a request does to the commands: nothing, or one more.
pub data Dispatched (less : String → String → Bool) (s s' : State) : Type 0 where
  kept : s'.commands ≡ s.commands → Dispatched less s s'
  added :
      (key : String) (p : Params) (now : ℕ)
      → lookup s.commands key ≡ none
      → is_pending p s.commands ≡ false
      → requests s.commands < 8
      → length s.commands < 256
      → s'.commands ≡ place less key (new_command p now) s.commands
      → Dispatched less s s'

then-ok : (m k : Result Failure (Unit {0})) → (m >> k) ≡ ok tt → (m ≡ ok tt) × (k ≡ ok tt)
then-ok (ok a) k h = (refl, h)
then-ok (err e) k h = cc

has_room-ok :
    (s : State) (p : Params)
    → has_room s p ≡ ok tt
    → (is_pending p s.commands ≡ false) × (requests s.commands < 8) × (length s.commands < 256)
unfolding has_room
has_room-ok s p h = (ground (arith, h), ground (arith, h), ground (arith, h))

admit-ok :
    (s : State) (r : Run) (p : Params) (status : Result Failure Status)
    → admit s r p status ≡ ok tt
    → (is_pending p s.commands ≡ false) × (requests s.commands < 8) × (length s.commands < 256)
unfolding admit
admit-ok s r p status h =
    has_room-ok s p
      (then-ok (has_room s p) (is_capable p status)
        (then-ok (targeted r p) (has_room s p >> is_capable p status) h).1).0

pub save-commands :
    {A : Type 0} (s : State) (saved : Bool) (a : A) → (save s saved a).0.commands ≡ s.commands
unfolding save
save-commands s true a = refl
save-commands s false a = refl

module _ (digest : ℕ → String → String) (less : String → String → Bool) where
  pub source_dispatch-Dispatched :
      (s : State) (principal : ℕ) (p : Params) (k : Answers)
      → Dispatched less s (source_dispatch digest less s principal p k).0
  unfolding source_dispatch
  source_dispatch-Dispatched s principal p k =
      let key = digest principal (value p "requestId") in
      elim (Bool-cases s.stopping) [
        | inl e1 ↦ rw e1 (kept refl)
        | inr e1 ↦ elim (Result-cases (validate p)) [
          | inr (f, e2) ↦ rw (e1, e2) (kept refl)
          | inl (u, e2) ↦ elim (Option-cases (lookup s.runs (value p "runId"))) [
            | inl e3 ↦ rw (e1, e2, e3) (kept refl)
            | inr (r, e3) ↦ elim (Option-cases (lookup s.commands key)) [
              | inr (old, e4) ↦ elim (Bool-cases (same_members old.request.members p.members)) [
                | inl e5 ↦ rw (e1, e2, e3, e4, e5) (kept refl)
                | inr e5 ↦ rw (e1, e2, e3, e4, e5) (kept refl)
              ]
              | inl e4 ↦ elim (Result-cases (admit s r p k.status)) [
                | inr (f, e5) ↦ rw (e1, e2, e3, e4, e5) (kept refl)
                | inl (u, e5) ↦
                    let (a, b, c) = admit-ok s r p k.status e5 in
                    rw (e1, e2, e3, e4, e5)
                      (added key p k.now_ms e4 a b c (save-commands _ k.saved _))
              ]
            ]
          ]
        ]
      ]
