-- ===== src/Runtime/Jobs/Entries.antt =====
-- The maps of Jobs/Tables: what is found and counted behind `put`, `replace` and `map_values`.
use Prim.Native.String.{String}
use text.Mathlib.Text.{◌==◌}
use text.Mathlib.TextEquality.{eq_iff}
use graphlab.Prelude.{
  ℕ, ◌+◌, ◌≤◌, ◌≡◌, refl, sym, ap, ◌∙◌, arith, length, Bool-cases, Option-cases, inl, inr, Bool,
  true, false, List, [], ◌∷◌, none, some, if◌then◌else◌,
}
use graphlab.Runtime.Source.Store.{
  lookup, place, replace, changed, length-place, length-replace, lookup-place, lookup-replace,
  Unique, place-Unique, replace-Unique,
}
use graphlab.Runtime.Jobs.Tables.{Job, is_pending, any_pending, put}
use graphlab.Runtime.Jobs.Recovery.{map_values, fail_job}
use graphlab.Runtime.Jobs.History.{first_queued, is_queued}

abbrev pub pending_jobs : List (String × Job) → ℕ
pending_jobs [] = 0
pending_jobs (j ∷ js) = let rest = pending_jobs js in if is_pending j.1 then rest + 1 else rest

module _ {ℓ} {A : Type ℓ} where
  pub lookup-put :
      (less : String → String → Bool) (k : String) (a : A) (es : List (String × A)) (j : String)
      → lookup (put less k a es) j ≡ (if k == j then some a else lookup es j)
  unfolding put
  lookup-put less k a es j = elim (Option-cases (lookup es k)) [
    | inl n ↦ rw n (lookup-place less k a es j n)
    | inr (b, n) ↦ elim (Bool-cases (k == j)) [
      | inl e ↦
          let same : lookup es j ≡ some b = ap (lookup es) (sym ((eq_iff k j).0 e)) ∙ n in
          rw n (lookup-replace k (λ _. a) es j ∙ rw (e, same) refl)
      | inr e ↦ rw n (lookup-replace k (λ _. a) es j ∙ rw e refl)
    ]
  ]

  pub length-put :
      (less : String → String → Bool) (k : String) (a : A) (es : List (String × A))
      → length (put less k a es) ≤ length es + 1
  unfolding put
  length-put less k a es = elim (Option-cases (lookup es k)) [
    | inl n ↦ rw n (omega (arith, length-place less k a es))
    | inr (b, n) ↦ rw n (omega (arith, length-replace k (λ (_ : A). a) es))
  ]

  pub put-Unique :
      (less : String → String → Bool) (k : String) (a : A) (es : List (String × A))
      → Unique es
      → Unique (put less k a es)
  unfolding put
  put-Unique less k a es u = elim (Option-cases (lookup es k)) [
    | inl n ↦ rw n (place-Unique less k a es n u)
    | inr (b, n) ↦ rw n (replace-Unique k (λ _. a) es u)
  ]

  pub lookup-map_values :
      (f : A → A) (es : List (String × A)) (k : String)
      → lookup (map_values f es) k ≡ changed f (lookup es k)
  lookup-map_values f [] k = refl
  lookup-map_values f (e ∷ es) k = elim (Bool-cases (e.0 == k)) [
    | inl c ↦ rw c refl
    | inr c ↦ rw c (lookup-map_values f es k)
  ]

  pub length-map_values :
      (f : A → A) (es : List (String × A)) → length (map_values f es) ≡ length es
  length-map_values f [] = refl
  length-map_values f (e ∷ es) = omega (arith, length-map_values f es)

  pub map_values-Unique :
      (f : A → A) (es : List (String × A)) → Unique es → Unique (map_values f es)
  map_values-Unique f [] u = tt
  map_values-Unique f (e ∷ es) u =
      let g = lookup-map_values f es e.0 in (g ∙ rw u.0 refl, map_values-Unique f es u.1)

pending-place :
    (less : String → String → Bool) (k : String) (a : Job) (es : List (String × Job))
    → pending_jobs (place less k a es) ≤ pending_jobs es + 1
unfolding place
pending-place less k a [] = ground arith
pending-place less k a (e ∷ es) = ground (arith, pending-place less k a es)

pending-replace_any :
    (k : String) (f : Job → Job) (es : List (String × Job))
    → pending_jobs (replace k f es) ≤ pending_jobs es + 1
unfolding replace
pending-replace_any k f [] = omega arith
pending-replace_any k f (e ∷ es) = ground (arith, pending-replace_any k f es)

pub pending-put :
    (less : String → String → Bool) (k : String) (a : Job) (es : List (String × Job))
    → pending_jobs (put less k a es) ≤ pending_jobs es + 1
unfolding put
pending-put less k a es = elim (Option-cases (lookup es k)) [
  | inl n ↦ rw n (pending-place less k a es)
  | inr (b, n) ↦ rw n (pending-replace_any k (λ (_ : Job). a) es)
]

-- A change of a job that does not make it pending.
pub pending-replace :
    (k : String) (f : Job → Job) (es : List (String × Job)) (j : Job)
    → lookup es k ≡ some j
    → (is_pending (f j) ≡ true → is_pending j ≡ true)
    → pending_jobs (replace k f es) ≤ pending_jobs es
unfolding replace
pending-replace k f [] j l h = omega arith
pending-replace k f (e ∷ es) j l h = elim (Bool-cases (e.0 == k)) [
  | inl c ↦
      let same : some e.1 ≡ some j = rw c at l in
      let same : e.1 ≡ j = cc same in rw (c, same) (ground (arith, h))
  | inr c ↦
      let l' : lookup es k ≡ some j = rw c at l in
      rw c (ground (arith, pending-replace k f es j l' h))
]

pub pending-fail_job : (es : List (String × Job)) → pending_jobs (map_values fail_job es) ≡ 0
pending-fail_job [] = refl
pending-fail_job (e ∷ es) = elim (Bool-cases (is_pending e.1)) [
  | inl c ↦ rw c (pending-fail_job es)
  | inr c ↦ rw (c, c) (pending-fail_job es)
]

pub any_pending-none : (es : List (String × Job)) → any_pending es ≡ false → pending_jobs es ≡ 0
any_pending-none [] h = refl
any_pending-none (e ∷ es) h = ground (arith, h, any_pending-none es)

pub first_queued-found :
    (es : List (String × Job)) (id : String)
    → Unique es
    → first_queued es ≡ some id
    → (j : Job) × (lookup es id ≡ some j) × (is_queued j ≡ true)
first_queued-found [] id u h = absurd (cc h)
first_queued-found (e ∷ es) id u h = elim (Bool-cases (is_queued e.1)) [
  | inl q ↦
      let same : some e.0 ≡ some id = rw q at h in
      let same : e.0 ≡ id = cc same in (e.1, rw ((eq_iff e.0 id).1 same) refl, q)
  | inr q ↦
      let h' : first_queued es ≡ some id = rw q at h in
      let (j, l, p) = first_queued-found es id u.1 h' in
      elim (Bool-cases (e.0 == id)) [
        | inl c ↦
            let z : lookup es id ≡ none = ap (lookup es) (sym ((eq_iff e.0 id).0 c)) ∙ u.0 in
            absurd (cc (z, l))
        | inr c ↦ (j, rw c l, p)
      ]
]
