-- ===== src/Runtime/Source/Invariant.antt =====
-- What the source commands keep over any interleaving of events.
use Prim.Native.String.{String}
use text.Mathlib.Text.{◌==◌}
use text.Mathlib.TextEquality.{eq_iff}
use graphlab.Prelude.{
  ℕ, ◌≡◌, refl, ap, sym, ◌∙◌, Bool, true, false, List, [], ◌∷◌, leb, Result, ok, err, Option, none,
  some, arith, Bool-cases, inl, inr,
}
use graphlab.Runtime.Source.Requests.{Failure, backend, Params}
use graphlab.Runtime.Source.Store.{
  Unique, place-Unique, replace-Unique, lookup, place, replace, length-place, length-replace,
  lookup-place,
}
use graphlab.Runtime.Source.Commands.{
  requests-place, place-Apart, requests-replace, replace-Apart, pick-found,
}
use graphlab.Runtime.Source.{
  Run, State, Command, Outcome, Execution, is_requested, new_command, pick, attempt, concluded,
  execute, settle, finish,
}
use graphlab.Runtime.Source.History.{
  Event, asks, changes, picks, finishes, System, Sound, Executes, step, run, taken, picked,
  executed, Dispatched, kept, added, source_dispatch-Dispatched, save-commands,
}

concluded-settled :
    (r : Result Failure (Unit {0})) (c : Command) → is_requested (settle (concluded r) c) ≡ false
unfolding is_requested
concluded-settled (ok a) c = refl
concluded-settled (err (backend true)) c = refl
concluded-settled (err e) c = refl

execute-settled :
    (r : Option Run) (c d : Command) (x : Execution)
    → is_requested (settle (execute r c x) d) ≡ false
unfolding execute
execute-settled r c d x = elim (Bool-cases (leb c.deadline_ms x.now_ms)) [
  | inl e ↦ rw e (unfold is_requested in refl)
  | inr e ↦ rw e (concluded-settled (attempt r c.request x) d)
]

-- Nothing that Sound speaks of depends on the rest of the state.
same_commands :
    (y : System) (s : State)
    → s.commands ≡ y.state.commands
    → Sound y
    → Sound (record y { state = s })
same_commands y s e h = record {
  few = rw e h.few;
  stored = rw e h.stored;
  unique = rw e h.unique;
  distinct = rw e h.distinct;
  executes = rw e h.executes;
}

pub hides_none :
    (less : String → String → Bool) (key j : String) (c d : Command) (cs : List (String × Command))
    → lookup cs key ≡ none
    → lookup cs j ≡ some d
    → lookup (place less key c cs) j ≡ some d
hides_none less key j c d cs n f = elim (Bool-cases (key == j)) [
  | inl e ↦
      let z : lookup cs j ≡ none = ap (lookup cs) (sym ((eq_iff key j).0 e)) ∙ n in
      absurd (cc (z, f))
  | inr e ↦ lookup-place less key c cs j n ∙ rw e f
]

pub new_requested : (p : Params) (now : ℕ) → is_requested (new_command p now) ≡ true
unfolding is_requested
new_requested p now = refl

placed-Executes :
    (less : String → String → Bool) (key : String) (c : Command) (cs : List (String × Command))
    (w : Option (String × Command × Option Run))
    → lookup cs key ≡ none
    → Executes cs w
    → Executes (place less key c cs) w
placed-Executes less key c cs none n h = tt
placed-Executes less key c cs (some (j, d, r)) n h = (hides_none less key j c d cs n h.0, h.1)

dispatched-Sound :
    (less : String → String → Bool) (y : System) (s : State)
    → Dispatched less y.state s
    → Sound y
    → Sound (record y { state = s })
dispatched-Sound less y s (kept e) h = same_commands y s e h
dispatched-Sound less y s (added key p now n a b c e) h =
    let cs = y.state.commands in
    let new = new_command p now in
    record {
      few = rw e (omega (arith, requests-place less key new cs (new_requested p now), b));
      stored = rw e (omega (arith, length-place less key new cs, c));
      unique = rw e (place-Unique less key new cs n h.unique);
      distinct = rw e (place-Apart less key new cs a h.distinct);
      executes = rw e (placed-Executes less key new cs y.worker n h.executes);
    }

taken-Executes :
    (s : State) (w : Option (String × Command))
    → Unique s.commands
    → pick s.commands ≡ w
    → Executes s.commands (taken s w)
taken-Executes s none u e = tt
taken-Executes s (some (key, c)) u e = pick-found s.commands (key, c) u e

finished-Sound :
    (s s' : State) (w : Option (String × Command × Option Run)) (key : String)
    (f : Command → Command)
    → ((c : Command) → is_requested (f c) ≡ false)
    → s'.commands ≡ replace key f s.commands
    → Sound (record { state = s; worker = w })
    → Sound (record { state = s'; worker = none })
finished-Sound s s' w key f n e h = record {
  few = rw e (omega (arith, requests-replace key f n s.commands, h.few));
  stored = rw e (omega (arith, length-replace key f s.commands, h.stored));
  unique = rw e (replace-Unique key f s.commands h.unique);
  distinct = rw e (replace-Apart key f n s.commands h.distinct);
  executes = tt;
}

pub finish-commands :
    (s : State) (key : String) (o : Outcome × Option Failure) (saved : Bool)
    → (finish s key o saved).0.commands ≡ replace key (settle o) s.commands
unfolding finish
finish-commands s key o saved =
    save-commands (record s { commands = replace key (settle o) s.commands }) saved tt

picked-Sound :
    (s : State) (w : Option (String × Command × Option Run))
    → Sound (record { state = s; worker = w })
    → Sound (picked s w)
picked-Sound s none h = record {
  few = h.few;
  stored = h.stored;
  unique = h.unique;
  distinct = h.distinct;
  executes = taken-Executes s (pick s.commands) h.unique refl;
}
picked-Sound s (some w) h = h

executed-Sound :
    (s : State) (w : Option (String × Command × Option Run)) (x : Execution) (saved : Bool)
    → Sound (record { state = s; worker = w })
    → Sound (executed s w x saved)
executed-Sound s none x saved h = h
executed-Sound s (some (key, c, r)) x saved h =
    finished-Sound s _ (some (key, c, r)) key (settle (execute r c x))
      (λ d. execute-settled r c d x) (finish-commands s key (execute r c x) saved) h

module _ (digest : ℕ → String → String) (less : String → String → Bool) where
  pub step-Sound : (y : System) (e : Event) → Sound y → Sound (step digest less y e)
  unfolding step
  step-Sound y (asks principal p k) h =
      dispatched-Sound less y _ (source_dispatch-Dispatched digest less y.state principal p k) h
  step-Sound y (changes runs jobs) h =
      same_commands y (record y.state { runs = runs; jobs = jobs }) refl h
  step-Sound y picks h = picked-Sound y.state y.worker h
  step-Sound y (finishes x saved) h = executed-Sound y.state y.worker x saved h

  -- From a state in which at most 8 commands are requested, for different targets, at most 256 are
  -- stored, each under its own name, and the worker executes a requested one if any: this stays so
  -- over any interleaving of requests by any principal, changes of runs and jobs, and the two
  -- halves of the worker's loop, whatever the backend, the clock and the journal answer.
  pub run-Sound : (y : System) (es : List Event) → Sound y → Sound (run digest less y es)
  unfolding run
  run-Sound y [] h = h
  run-Sound y (e ∷ es) h = run-Sound (step digest less y e) es (step-Sound y e h)
