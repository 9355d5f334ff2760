-- ===== src/Sources/Ledger.antt =====
-- What the sources make of sequences of commands.
use Prim.Native.String.{String}
use text.Mathlib.Text.{◌==◌}
use text.Mathlib.TextEquality.{eq_iff}
use graphlab.Prelude.{
  ◌≡◌, refl, ap, sym, subst, ◌∙◌, true, ltb, length, List, [], ◌∷◌, none, some, Option-cases,
  Result, Result-cases, ok, err, Bool-cases, inl, inr,
}
use graphlab.Runtime.Source.Requests.{Members, same_members}
use graphlab.Runtime.Source.Store.{lookup}
use graphlab.Runtime.Source.Commands.{==_refl}
use graphlab.Runtime.Source.Retries.{same_members_refl}
use graphlab.Sources.{Failure, Sources, Checked, with_outcome, checked, accepted, apply, apply_all}

-- What one command leaves: the state as it was, or one more command that passed the checks.
pub data Applied (s : Sources) (p : Members) (x : Sources × Result Failure Members) : Type 0 where
  refused : (e : Failure) → x ≡ (s, err e) → Applied s p x
  repeated :
      (c : Checked) (old : Members)
      → checked s.epoch p ≡ ok c
      → lookup s.commands c.id ≡ some old
      → same_members old p ≡ true
      → x ≡ (s, ok (with_outcome p))
      → Applied s p x
  entered_now :
      (c : Checked)
      → checked s.epoch p ≡ ok c
      → lookup s.commands c.id ≡ none
      → ltb (length s.commands) 256 ≡ true
      → x ≡ (accepted s p c, ok (with_outcome p))
      → Applied s p x

pub apply-Applied : (s : Sources) (p : Members) → Applied s p (apply s p)
unfolding apply
apply-Applied s p = elim (Result-cases (checked s.epoch p)) [
  | inr (e, h) ↦ rw h (refused e refl)
  | inl (c, h) ↦ elim (Option-cases (lookup s.commands c.id)) [
    | inr (old, l) ↦ elim (Bool-cases (same_members old p)) [
      | inl m ↦ repeated c old h l m (rw (h, l, m) refl)
      | inr m ↦ refused Failure.source_request_conflict (rw (h, l, m) refl)
    ]
    | inl l ↦ elim (Bool-cases (ltb (length s.commands) 256)) [
      | inl m ↦ entered_now c h l m (rw (h, l, m) refl)
      | inr m ↦ refused Failure.source_command_capacity (rw (h, l, m) refl)
    ]
  ]
]

-- A command is stored under its name, in sources of the epoch that it is for.
abbrev Stored : String → Members → Checked → Sources → Type 0
Stored epoch p c s =
    (s.epoch ≡ epoch)
    × (old : Members) × (lookup s.commands c.id ≡ some old)
    × (same_members old p ≡ true)

hidden_none :
    (id k : String) (p old : Members) (cs : List (String × Members))
    → lookup cs id ≡ none
    → lookup cs k ≡ some old
    → lookup ((id, p) ∷ cs) k ≡ some old
hidden_none id k p old cs n h = elim (Bool-cases (id == k)) [
  | inl e ↦
      let z : lookup cs k ≡ none = ap (lookup cs) (sym ((eq_iff id k).0 e)) ∙ n in
      absurd (cc (z, h))
  | inr e ↦ rw e h
]

apply-Stored :
    (epoch : String) (p q : Members) (c : Checked) (s : Sources)
    → Stored epoch p c s
    → Stored epoch p c (apply s q).0
apply-Stored epoch p q c s h = go (apply-Applied s q)
  where
    go : Applied s q (apply s q) → Stored epoch p c (apply s q).0
    go (refused e x) =
        subst (λ (y : Sources × Result Failure Members). Stored epoch p c y.0) (sym x) h
    go (repeated d old a b m x) =
        subst (λ (y : Sources × Result Failure Members). Stored epoch p c y.0) (sym x) h
    go (entered_now d a l m x) =
        subst (λ (y : Sources × Result Failure Members). Stored epoch p c y.0) (sym x)
          (h.0, h.1, hidden_none d.id c.id q h.1 s.commands l h.2, h.3)

apply_all-Stored :
    (epoch : String) (p : Members) (c : Checked) (s : Sources) (ps : List Members)
    → Stored epoch p c s
    → Stored epoch p c (apply_all s ps)
unfolding apply_all
apply_all-Stored epoch p c s [] h = h
apply_all-Stored epoch p c s (q ∷ ps) h =
    apply_all-Stored epoch p c (apply s q).0 ps (apply-Stored epoch p q c s h)

first_Stored :
    (s : Sources) (p out : Members)
    → (apply s p).1 ≡ ok out
    → (c : Checked) × (checked s.epoch p ≡ ok c)
      × Stored s.epoch p c (apply s p).0
      × (out ≡ with_outcome p)
first_Stored s p out h = go (apply-Applied s p)
  where
    go :
        Applied s p (apply s p)
        → (c : Checked) × (checked s.epoch p ≡ ok c)
          × Stored s.epoch p c (apply s p).0
          × (out ≡ with_outcome p)
    go (refused e x) = absurd (cc (ap (λ (y : Sources × Result Failure Members). y.1) x, h))
    go (repeated c old a l m x) = (
      c,
      a,
      subst (λ (y : Sources × Result Failure Members). Stored s.epoch p c y.0) (sym x)
          (refl, old, l, m),
      cc (ap (λ (y : Sources × Result Failure Members). y.1) x, h),
    )
    go (entered_now c a l m x) = (
      c,
      a,
      subst (λ (y : Sources × Result Failure Members). Stored s.epoch p c y.0) (sym x)
          (refl, p, rw (==_refl c.id) refl, same_members_refl p),
      cc (ap (λ (y : Sources × Result Failure Members). y.1) x, h),
    )

again :
    (s : Sources) (epoch : String) (p : Members) (c : Checked)
    → checked epoch p ≡ ok c
    → Stored epoch p c s
    → apply s p ≡ (s, ok (with_outcome p))
unfolding apply
again s epoch p c a (e, old, l, m) =
    let a' : checked s.epoch p ≡ ok c = ap (λ t. checked t p) e ∙ a in rw (a', l, m) refl

-- A command that was acknowledged and is sent again after any commands is acknowledged in the same
-- words, and changes nothing.
pub apply-apply_all-same :
    (s : Sources) (p out : Members) (ps : List Members)
    → (apply s p).1 ≡ ok out
    → apply (apply_all (apply s p).0 ps) p ≡ (apply_all (apply s p).0 ps, ok out)
apply-apply_all-same s p out ps h =
    let (c, a, k, o) = first_Stored s p out h in
    let e = again _ s.epoch p c a (apply_all-Stored s.epoch p c (apply s p).0 ps k) in
    e ∙ ap (λ out. (apply_all (apply s p).0 ps, ok out)) (sym o)
