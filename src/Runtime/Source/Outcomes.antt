-- ===== src/Runtime/Source/Outcomes.antt =====
-- What becomes of one source command over any interleaving of events.
use Prim.Native.String.{String}
use text.Mathlib.Text.{◌==◌}
use text.Mathlib.TextEquality.{eq_iff}
use graphlab.Prelude.{
  ℕ, ◌≡◌, refl, ap, sym, ◌∙◌, Bool, true, false, List, [], ◌∷◌, Option, none, some, Bool-cases, inl,
  inr,
}
use graphlab.Runtime.Source.Store.{lookup, lookup-replace}
use graphlab.Runtime.Source.{
  Run, State, Command, Execution, is_requested, new_command, execute, settle,
}
use graphlab.Runtime.Source.History.{
  Event, asks, changes, picks, finishes, System, Sound, step, run, picked, executed, Dispatched,
  kept, added, source_dispatch-Dispatched,
}
use graphlab.Runtime.Source.Invariant.{hides_none, finish-commands, step-Sound}

-- The request is the same, and an outcome that was there is.
abbrev pub Keeps : Command → Command → Type 0
Keeps c c' = (c'.request ≡ c.request) × (is_requested c ≡ false → c' ≡ c)

abbrev Found : String → Command → State → Type 0
Found key c s = (c' : Command) × (lookup s.commands key ≡ some c') × Keeps c c'

unchanged :
    (key : String) (c : Command) (s s' : State)
    → s'.commands ≡ s.commands
    → lookup s.commands key ≡ some c
    → Found key c s'
unchanged key c s s' e f = (c, rw e f, (refl, λ n. refl))

dispatched-Found :
    (less : String → String → Bool) (key : String) (c : Command) (s s' : State)
    → Dispatched less s s'
    → lookup s.commands key ≡ some c
    → Found key c s'
dispatched-Found less key c s s' (kept e) f = unchanged key c s s' e f
dispatched-Found less key c s s' (added name p now n a b l e) f =
    (c, rw e (hides_none less name key (new_command p now) c s.commands n f), (refl, λ n. refl))

picked-Found :
    (key : String) (c : Command) (s : State) (w : Option (String × Command × Option Run))
    → lookup s.commands key ≡ some c
    → Found key c (picked s w).state
picked-Found key c s none f = (c, f, (refl, λ n. refl))
picked-Found key c s (some w) f = (c, f, (refl, λ n. refl))

executed-Found :
    (key : String) (c : Command) (s : State) (w : Option (String × Command × Option Run))
    (x : Execution) (saved : Bool)
    → Sound (record { state = s; worker = w })
    → lookup s.commands key ≡ some c
    → Found key c (executed s w x saved).state
executed-Found key c s none x saved h f = (c, f, (refl, λ n. refl))
executed-Found key c s (some (name, d, r)) x saved h f =
    let o = execute r d x in
    let e = finish-commands s name o saved in
    let l = lookup-replace name (settle o) s.commands key in
    elim (Bool-cases (name == key)) [
      | inl same ↦
          let g : lookup s.commands key ≡ some d =
            sym (ap (lookup s.commands) ((eq_iff name key).0 same)) ∙ h.executes.0 in
          let eq : d ≡ c = cc (f, g) in
          let q : is_requested c ≡ true = sym (ap is_requested eq) ∙ h.executes.1 in
          (settle o c, ap (λ cs. lookup cs key) e ∙ (l ∙ rw (same, f) refl), (refl, λ n. cc (q, n)))
      | inr other ↦ (c, ap (λ cs. lookup cs key) e ∙ (l ∙ rw other f), (refl, λ n. refl))
    ]

Keeps-Keeps : (a b c : Command) → Keeps a b → Keeps b c → Keeps a c
Keeps-Keeps a b c p q = (q.0 ∙ p.0, λ n. let e : b ≡ a = p.1 n in q.1 (ap is_requested e ∙ n) ∙ e)

module _ (digest : ℕ → String → String) (less : String → String → Bool) where
  step-Found :
      (y : System) (e : Event) (key : String) (c : Command)
      → Sound y
      → lookup y.state.commands key ≡ some c
      → Found key c (step digest less y e).state
  unfolding step
  step-Found y (asks principal p k) key c h f =
      dispatched-Found less key c y.state _
        (source_dispatch-Dispatched digest less y.state principal p k) f
  step-Found y (changes runs jobs) key c h f = (c, f, (refl, λ n. refl))
  step-Found y picks key c h f = picked-Found key c y.state y.worker f
  step-Found y (finishes x saved) key c h f = executed-Found key c y.state y.worker x saved h f

  -- From a state in which the worker executes a requested command, if any, and the counts hold: a
  -- command that is stored under a name stays stored under it over any interleaving of events,
  -- with the request that it was made for, and once its outcome is no longer `requested`, the
  -- command never changes again.
  pub run-Keeps :
      (y : System) (es : List Event) (key : String) (c : Command)
      → Sound y
      → lookup y.state.commands key ≡ some c
      → (c' : Command) × (lookup (run digest less y es).state.commands key ≡ some c') × Keeps c c'
  unfolding run
  run-Keeps y [] key c h f = (c, f, (refl, λ n. refl))
  run-Keeps y (e ∷ es) key c h f =
      let (c1, f1, k1) = step-Found y e key c h f in
      let (c2, f2, k2) =
        run-Keeps (step digest less y e) es key c1 (step-Sound digest less y e h) f1 in
      (c2, f2, Keeps-Keeps c c1 c2 k1 k2)
