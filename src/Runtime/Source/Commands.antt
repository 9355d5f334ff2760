-- ===== src/Runtime/Source/Commands.antt =====
-- The list of the commands of Runtime/Source: which are requested, for which targets.
use Prim.Native.String.{String}
use text.Mathlib.Text.{◌==◌}
use text.Mathlib.TextEquality.{eq_iff}
use graphlab.Prelude.{
  ◌+◌, ◌≤◌, ◌≡◌, inl, inr, refl, ap, sym, ◌∙◌, Bool, true, false, ◌&&◌, ◌||◌, List, [], ◌∷◌, none,
  some, arith, subst, Bool-cases,
}
use graphlab.Runtime.Source.Requests.{Params, value}
use graphlab.Runtime.Source.Store.{Unique, lookup, place, replace}
use graphlab.Runtime.Source.{Command, is_requested, same_target, requests, is_pending, pick}

-- The requested commands have different targets.
abbrev pub Apart : List (String × Command) → Type 0
Apart [] = Unit
Apart (c ∷ cs) = (is_requested c.1 ≡ true → is_pending c.1.request cs ≡ false) × Apart cs

==_comm : (a b : String) → (a == b) ≡ (b == a)
==_comm a b = ground (arith, eq_iff a b, eq_iff b a)

pub ==_refl : (a : String) → (a == a) ≡ true
==_refl a = ground (arith, eq_iff a a)

same_target-sym : (p q : Params) → same_target p q ≡ same_target q p
unfolding same_target
same_target-sym p q = rw (
  ==_comm (value p "runId") (value q "runId"),
  ==_comm (value p "node") (value q "node"),
  ==_comm (value p "source") (value q "source"),
)

module _ (less : String → String → Bool) where
  pub requests-place :
      (k : String) (c : Command) (cs : List (String × Command))
      → is_requested c ≡ true
      → requests (place less k c cs) ≡ requests cs + 1
  unfolding place
  requests-place k c [] h = ground (arith, h)
  requests-place k c (e ∷ es) h = ground (arith, h, requests-place k c es h)

  pub is_pending-place :
      (p : Params) (k : String) (c : Command) (cs : List (String × Command))
      → is_pending p (place less k c cs)
        ≡ ((is_requested c && same_target c.request p) || is_pending p cs)
  unfolding place
  is_pending-place p k c [] = ground arith
  is_pending-place p k c (e ∷ es) = ground (arith, is_pending-place p k c es)

  pub place-Apart :
      (k : String) (c : Command) (cs : List (String × Command))
      → is_pending c.request cs ≡ false
      → Apart cs
      → Apart (place less k c cs)
  unfolding place
  place-Apart k c [] n h = ((λ r. refl), tt)
  place-Apart k c (e ∷ es) n h = elim (Bool-cases (less k e.0)) [
    | inl l ↦ rw l ((λ r. n), h)
    | inr l ↦
        let rest : is_pending c.request es ≡ false = ground (arith, n) in
        rw l (
          (λ r.
              is_pending-place e.1.request k c es
              ∙ ground (arith, n, r, h.0 r, same_target-sym c.request e.1.request)),
          place-Apart k c es rest h.1,
        )
  ]

module _ (k : String) (f : Command → Command) (h : (c : Command) → is_requested (f c) ≡ false) where
  pub requests-replace : (cs : List (String × Command)) → requests (replace k f cs) ≤ requests cs
  unfolding replace
  requests-replace [] = omega arith
  requests-replace (e ∷ es) = ground (arith, requests-replace es, h e.1)

  is_pending-replace :
      (p : Params) (cs : List (String × Command))
      → is_pending p cs ≡ false
      → is_pending p (replace k f cs) ≡ false
  unfolding replace
  is_pending-replace p [] n = refl
  is_pending-replace p (e ∷ es) n = ground (arith, n, is_pending-replace p es, h e.1)

  pub replace-Apart : (cs : List (String × Command)) → Apart cs → Apart (replace k f cs)
  unfolding replace
  replace-Apart [] a = tt
  replace-Apart (e ∷ es) a = elim (Bool-cases (e.0 == k)) [
    | inl c ↦ rw c ((λ r. cc (h e.1, r)), a.1)
    | inr c ↦ rw c ((λ r. is_pending-replace e.1.request es (a.0 r)), replace-Apart es a.1)
  ]

pub pick-found :
    (cs : List (String × Command)) (e : String × Command)
    → Unique cs
    → pick cs ≡ some e
    → lookup cs e.0 ≡ some e.1 × (is_requested e.1 ≡ true)
unfolding pick
pick-found [] e u h = cc
pick-found (c ∷ cs) e u h = elim (Bool-cases (is_requested c.1)) [
  | inl r ↦
      let g : pick (c ∷ cs) ≡ some c = rw r in
      let same : e ≡ c = cc (g, h) in
      subst (λ (x : String × Command). lookup (c ∷ cs) x.0 ≡ some x.1 × (is_requested x.1 ≡ true))
        (sym same) (rw (==_refl c.0) refl, r)
  | inr r ↦
      let g : pick (c ∷ cs) ≡ pick cs = rw r in
      let (l, q) = pick-found cs e u.1 (sym g ∙ h) in
      let n : (c.0 == e.0) ≡ false = elim (Bool-cases (c.0 == e.0)) [
        | inr f ↦ f
        | inl t ↦
            let z : lookup cs e.0 ≡ none = sym (ap (lookup cs) ((eq_iff c.0 e.0).0 t)) ∙ u.0 in
            absurd (cc (z, l))
      ] in
      (rw n l, q)
]
