-- ===== src/Runtime/Source/Retries.antt =====
-- A source command that is sent again.
use Prim.Native.String.{String}
use graphlab.Prelude.{
  ℕ, ◌≡◌, refl, ap, subst, sym, ◌∙◌, Bool, true, false, List, [], ◌∷◌, if◌then◌else◌, some, ok,
  Bool-cases, Option-cases, Result-cases, inl, inr,
}
use graphlab.Runtime.Source.Requests.{
  Params, Members, json_string, other, same_members, value, validate,
}
use graphlab.Runtime.Source.Store.{lookup, place, lookup-place}
use graphlab.Runtime.Source.Commands.{==_refl}
use graphlab.Runtime.Source.{
  Run, State, Command, Answers, new_command, source_dispatch, admit, save,
}
use graphlab.Runtime.Source.History.{Event, asks, System, Sound, step, run}
use graphlab.Runtime.Source.Invariant.{step-Sound}
use graphlab.Runtime.Source.Outcomes.{Keeps, run-Keeps}

otherwise : {A : Type 0} (b : Bool) (x y : A) → b ≡ false → (if b then x else y) ≡ y
otherwise true x y e = cc
otherwise false x y e = refl

pub same_members_refl : (ms : Members) → same_members ms ms ≡ true
same_members_refl [] = refl
same_members_refl ((n, json_string v) ∷ ms) = rw (==_refl n, ==_refl v) (same_members_refl ms)
same_members_refl ((n, other) ∷ ms) = rw (==_refl n) (same_members_refl ms)

module _ (digest : ℕ → String → String) (less : String → String → Bool) where
  -- What a request that is accepted leaves: its command under its name.
  abbrev Accepted : ℕ → Params → State → Command → Type 0
  Accepted principal p s c =
      (validate p ≡ ok tt)
      × (lookup s.commands (digest principal (value p "requestId")) ≡ some c)
      × (same_members c.request.members p.members ≡ true)

  saved_accepted :
      (key : String) (t : State) (saved : Bool) (new c : Command) (ms : Members)
      → lookup t.commands key ≡ some new
      → same_members new.request.members ms ≡ true
      → (save t saved new).1 ≡ ok c
      → (lookup (save t saved new).0.commands key ≡ some c)
        × (same_members c.request.members ms ≡ true)
  unfolding save
  saved_accepted key t true new c ms f m h =
      let same : new ≡ c = cc h in
      (f ∙ ap some same, subst (λ (x : Command). same_members x.request.members ms ≡ true) same m)
  saved_accepted key t false new c ms f m h = cc

  accepted :
      (s : State) (principal : ℕ) (p : Params) (k : Answers) (c : Command)
      → (source_dispatch digest less s principal p k).1 ≡ ok c
      → Accepted principal p (source_dispatch digest less s principal p k).0 c
  unfolding source_dispatch
  accepted s principal p k c h =
      let key = digest principal (value p "requestId") in
      elim (Bool-cases s.stopping) [
        | inl e1 ↦ cc (rw e1 at h)
        | inr e1 ↦ elim (Result-cases (validate p)) [
          | inr (f, e2) ↦ cc (rw (e1, e2) at h)
          | inl (u, e2) ↦ elim (Option-cases (lookup s.runs (value p "runId"))) [
            | inl e3 ↦ cc (rw (e1, e2, e3) at h)
            | inr (r, e3) ↦ elim (Option-cases (lookup s.commands key)) [
              | inr (old, e4) ↦ elim (Bool-cases (same_members old.request.members p.members)) [
                | inl e5 ↦
                    let same : old ≡ c = cc (rw (e1, e2, e3, e4, e5) at h) in
                    rw (e1, e2, e3, e4, e5)
                      (
                        refl,
                        e4 ∙ ap some same,
                        ap (λ (x : Command). same_members x.request.members p.members) (sym same)
                            ∙ e5,
                      )
                | inr e5 ↦ cc (rw (e1, e2, e3, e4, e5) at h)
              ]
              | inl e4 ↦ elim (Result-cases (admit s r p k.status)) [
                | inr (f, e5) ↦ cc (rw (e1, e2, e3, e4, e5) at h)
                | inl (u, e5) ↦
                    let new = new_command p k.now_ms in
                    let t = record s { commands = place less key new s.commands } in
                    let (f, m) =
                      saved_accepted key t k.saved new c p.members
                        (lookup-place less key new s.commands key e4 ∙ rw (==_refl key) refl)
                        (same_members_refl p.members) (rw (e1, e2, e3, e4, e5) at h) in
                    rw (e1, e2, e3, e4, e5) (refl, f, m)
              ]
            ]
          ]
        ]
      ]

  repeated :
      (s : State) (principal : ℕ) (p : Params) (k : Answers) (c : Command) (r : Run)
      → s.stopping ≡ false
      → lookup s.runs (value p "runId") ≡ some r
      → Accepted principal p s c
      → source_dispatch digest less s principal p k ≡ (s, ok c)
  unfolding source_dispatch
  repeated s principal p k c r e l a = otherwise s.stopping _ _ e ∙ rw (a.0, l, a.1, a.2) refl

  -- From a state in which the worker executes a requested command, if any, and the counts hold:
  -- after a request was accepted, and after any events, the same request of the same principal is
  -- answered, where the engine has not stopped and the run is there, with the command stored for it:
  -- the state does not change, whatever the backend would answer, and the command has the request of
  -- the one first returned, and its outcome if that had one.
  pub accepted-run-same :
      (y : System) (principal : ℕ) (p : Params) (k k' : Answers) (c : Command) (es : List Event)
      (r : Run)
      → Sound y
      → (source_dispatch digest less y.state principal p k).1 ≡ ok c
      → (run digest less (step digest less y (asks principal p k)) es).state.stopping ≡ false
      → lookup
          (run digest less (step digest less y (asks principal p k)) es).state.runs
          (value p "runId")
        ≡ some r
      → let final = (run digest less (step digest less y (asks principal p k)) es).state in
        (c' : Command) × (source_dispatch digest less final principal p k' ≡ (final, ok c'))
        × Keeps c c'
  unfolding step
  accepted-run-same y principal p k k' c es r h e s l =
      let y' = step digest less y (asks principal p k) in
      let (v, f, m) = accepted y.state principal p k c e in
      let (c', f', q) =
        run-Keeps digest less y' es (digest principal (value p "requestId")) c
          (step-Sound digest less y (asks principal p k) h) f in
      let m' : same_members c'.request.members p.members ≡ true =
        ap (λ (x : Params). same_members x.members p.members) q.0 ∙ m in
      (c', repeated _ principal p k' c' r s l (v, f', m'), q)
