-- ===== src/Runtime/Source/Store.antt =====
-- The map of the commands, as a list of its entries in the order of the names.
use Prim.Native.String.{String}
use text.Mathlib.Text.{◌==◌}
use text.Mathlib.TextEquality.{eq_iff}
use graphlab.Prelude.{
  ◌+◌, ◌≡◌, refl, sym, ◌∙◌, arith, length, Bool-cases, inl, inr, Bool, true, false, List, [], ◌∷◌,
  Option, none, some, if◌then◌else◌,
}

module _ {ℓ} {A : Type ℓ} where
  abbrev pub lookup : List (String × A) → String → Option A
  lookup [] k = none
  lookup (e ∷ es) k = if e.0 == k then some e.1 else lookup es k

  -- Adds an entry at its place in the order.
  unfoldable pub place :
      (String → String → Bool) → String → A → List (String × A) → List (String × A)
  place less k a [] = (k, a) ∷ []
  place less k a (e ∷ es) =
      let rest = place less k a es in if less k e.0 then (k, a) ∷ e ∷ es else e ∷ rest

  -- Changes the entry of a name in place.
  unfoldable pub replace : String → (A → A) → List (String × A) → List (String × A)
  replace k f [] = []
  replace k f (e ∷ es) = if e.0 == k then (e.0, f e.1) ∷ es else e ∷ replace k f es

abbrev pub changed {ℓ} : {A : Type ℓ} → (A → A) → Option A → Option A
changed f none = none
changed f (some a) = some (f a)

apart : (a b c : String) → (a == b) ≡ false → (a == c) ≡ true → (b == c) ≡ false
apart a b c n e = ground (arith, eq_iff a b, eq_iff a c, eq_iff b c)

apart_left : (a b c : String) → (a == b) ≡ true → (a == c) ≡ false → (b == c) ≡ false
apart_left a b c e n = ground (arith, eq_iff a b, eq_iff a c, eq_iff b c)

joined : (a b c : String) → (a == b) ≡ true → (a == c) ≡ true → (b == c) ≡ true
joined a b c e f = ground (arith, eq_iff a b, eq_iff a c, eq_iff b c)

module _ {ℓ} {A : Type ℓ} where
  pub length-place :
      (less : String → String → Bool) (k : String) (a : A) (es : List (String × A))
      → length (place less k a es) ≡ length es + 1
  unfolding place
  length-place less k a [] = omega arith
  length-place less k a (e ∷ es) = ground (arith, length-place less k a es)

  pub length-replace :
      (k : String) (f : A → A) (es : List (String × A)) → length (replace k f es) ≡ length es
  unfolding replace
  length-replace k f [] = refl
  length-replace k f (e ∷ es) = ground (arith, length-replace k f es)

  -- A new entry is found under its name and hides no other.
  pub lookup-place :
      (less : String → String → Bool) (k : String) (a : A) (es : List (String × A)) (j : String)
      → lookup es k ≡ none
      → lookup (place less k a es) j ≡ (if k == j then some a else lookup es j)
  unfolding place
  lookup-place less k a [] j h = refl
  lookup-place less k a (e ∷ es) j h = elim (Bool-cases (e.0 == k)) [
    | inl c ↦ cc (rw c at h)
    | inr c ↦ elim (Bool-cases (less k e.0)) [
      | inl l ↦ rw l refl
      | inr l ↦ elim (Bool-cases (e.0 == j)) [
        | inl u ↦ rw (l, u, apart e.0 k j c u) refl
        | inr u ↦
            let g : lookup (e ∷ es) k ≡ lookup es k = rw c in
            rw (l, u) (lookup-place less k a es j (sym g ∙ h))
      ]
    ]
  ]

  pub lookup-replace :
      (k : String) (f : A → A) (es : List (String × A)) (j : String)
      → lookup (replace k f es) j ≡ (if k == j then changed f (lookup es j) else lookup es j)
  unfolding replace
  lookup-replace k f [] j = ground arith
  lookup-replace k f (e ∷ es) j = elim (Bool-cases (e.0 == k)) [
    | inl c ↦ elim (Bool-cases (e.0 == j)) [
      | inl u ↦ rw (c, u, joined e.0 k j c u) refl
      | inr u ↦ rw (c, u, apart_left e.0 k j c u) refl
    ]
    | inr c ↦ elim (Bool-cases (e.0 == j)) [
      | inl u ↦ rw (c, u, apart e.0 k j c u) refl
      | inr u ↦ rw (c, u) (lookup-replace k f es j)
    ]
  ]

-- Every name has one entry.
abbrev pub Unique {ℓ} : {A : Type ℓ} → List (String × A) → Type ℓ
Unique [] = Unit
Unique (e ∷ es) = (lookup es e.0 ≡ none) × Unique es

module _ {ℓ} {A : Type ℓ} where
  pub place-Unique :
      (less : String → String → Bool) (k : String) (a : A) (es : List (String × A))
      → lookup es k ≡ none
      → Unique es
      → Unique (place less k a es)
  unfolding place
  place-Unique less k a [] h u = (refl, tt)
  place-Unique less k a (e ∷ es) h u = elim (Bool-cases (e.0 == k)) [
    | inl c ↦ cc (rw c at h)
    | inr c ↦ elim (Bool-cases (less k e.0)) [
      | inl l ↦ rw l (h, u)
      | inr l ↦
          let g : lookup (e ∷ es) k ≡ lookup es k = rw c in
          let d : (k == e.0) ≡ false = ground (arith, c, eq_iff e.0 k, eq_iff k e.0) in
          let f : (if k == e.0 then some a else lookup es e.0) ≡ none = rw d u.0 in
          rw l
            (lookup-place less k a es e.0 (sym g ∙ h) ∙ f, place-Unique less k a es (sym g ∙ h) u.1)
    ]
  ]

  pub replace-Unique :
      (k : String) (f : A → A) (es : List (String × A)) → Unique es → Unique (replace k f es)
  unfolding replace
  replace-Unique k f [] u = tt
  replace-Unique k f (e ∷ es) u = elim (Bool-cases (e.0 == k)) [
    | inl c ↦ rw c u
    | inr c ↦
        let d : (k == e.0) ≡ false = ground (arith, c, eq_iff e.0 k, eq_iff k e.0) in
        rw c (lookup-replace k f es e.0 ∙ rw d u.0, replace-Unique k f es u.1)
  ]
