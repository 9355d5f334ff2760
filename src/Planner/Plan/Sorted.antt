-- ===== src/Planner/Plan/Sorted.antt =====
-- What the ordering of cpp/planner.cpp asks of the entries, from what is known of the calls.
use Prim.Native.String.{String}
use text.Mathlib.Text.{◌==◌}
use text.Mathlib.TextEquality.{eq_iff}
use mathlib.Core.List.{Memᴰ}
use graphlab.Prelude.{
  ℕ, ◌<◌, ◌≡◌, ◌≢◌, refl, sym, ◌∙◌, true, false, List, [], ◌∷◌, map, none, some, All, Bool-cases,
  inl, inr, arith,
}
use graphlab.Runtime.Source.Store.{lookup, Unique}
use graphlab.Planner.Order.{Entry, mem, find, order, ordered}
use graphlab.Planner.Order.Facts.{Distinct, ids, AllDistinct, AllSmall}
use graphlab.Planner.Order.Invariant.{Found, AllFound}
use graphlab.Planner.Order.Sound.Loop.{Wf}
use graphlab.Planner.Order.Results.{IsSorted, order-IsSorted}
use graphlab.Planner.Steps.{names, Step, add_all, key_of}
use graphlab.Planner.Plan.{entry}
use graphlab.Planner.Plan.Table.{
  IsBelow, IsEntry, IsPlanned, add_all-IsEntry, add_all-Unique, all-There,
}

lookup_other :
    (e : String × Step) (es : List (String × Step)) (k : String)
    → (e.0 == k) ≡ false
    → lookup (e ∷ es) k ≡ lookup es k
lookup_other e es k c = rw c

lookup_this :
    (e : String × Step) (es : List (String × Step)) (k : String)
    → (e.0 == k) ≡ true
    → lookup (e ∷ es) k ≡ some e.1
lookup_this e es k c = rw c

find-entry :
    (es : List (String × Step)) (k : String)
    → lookup es k ≢ none
    → find names k (map entry es) ≢ none
find-entry [] k h = absurd (h refl)
find-entry (e ∷ es) k h = elim (Bool-cases (e.0 == k)) [
  | inl c ↦
      let q : (k == e.0) ≡ true = ground (arith, eq_iff k e.0, eq_iff e.0 k, c) in rw q (λ n. cc n)
  | inr c ↦
      let q : (k == e.0) ≡ false = ground (arith, eq_iff k e.0, eq_iff e.0 k, c) in
      rw q (find-entry es k (λ n. h (lookup_other e es k c ∙ n)))
]

mem-entry :
    (es : List (String × Step)) (k : String)
    → lookup es k ≡ none
    → mem names k (ids names (map entry es)) ≡ false
mem-entry [] k h = refl
mem-entry (e ∷ es) k h = elim (Bool-cases (e.0 == k)) [
  | inl c ↦ absurd (cc (h, lookup_this e es k c))
  | inr c ↦
      let q : (k == e.0) ≡ false = ground (arith, eq_iff k e.0, eq_iff e.0 k, c) in
      rw q (mem-entry es k (sym (lookup_other e es k c) ∙ h))
]

ids-Distinct : (es : List (String × Step)) → Unique es → Distinct names (ids names (map entry es))
ids-Distinct [] u = tt
ids-Distinct (e ∷ es) u = (mem-entry es e.0 u.0, ids-Distinct es u.1)

module _ (calls : List Step) (rank : String → ℕ) where
  singles :
      (es : List (String × Step)) → All (IsEntry calls rank) es → AllDistinct names (map entry es)
  singles [] h = tt
  singles (e ∷ es) h = (h.0.0, singles es h.1)

  smalls : (es : List (String × Step)) → All (IsEntry calls rank) es → AllSmall names (map entry es)
  smalls [] h = tt
  smalls (e ∷ es) h = (h.0.1, smalls es h.1)

  below : (n : ℕ) (ds : List String) → All (IsBelow calls rank n) ds → All (λ d. rank d < n) ds
  below n [] h = tt
  below n (d ∷ ds) h = (h.0.0, below n ds h.1)

  ranked :
      (es : List (String × Step))
      → All (IsEntry calls rank) es
      → All (λ (e : Entry names). All (λ d. rank d < rank e.id) e.depends_on) (map entry es)
  ranked [] h = tt
  ranked (e ∷ es) h = (below (rank e.0) e.1.depends_on h.0.2, ranked es h.1)

  module _ (all : List (String × Step))
      (there : (k : String) → Memᴰ k (map key_of calls) → lookup all k ≢ none) where
    found :
        (n : ℕ) (ds : List String) → All (IsBelow calls rank n) ds → Found names (map entry all) ds
    found n [] h = tt
    found n (d ∷ ds) h = (find-entry all d (there d h.0.1), found n ds h.1)

    founds :
        (es : List (String × Step))
        → All (IsEntry calls rank) es
        → AllFound names (map entry all) (map entry es)
    founds [] h = tt
    founds (e ∷ es) h = (found (rank e.0) e.1.depends_on h.0.2, founds es h.1)

  -- Calls that depend on calls of a lower rank, on fewer than 2^64 each, are put in an order.
  pub calls-IsSorted :
      All (IsPlanned calls rank) calls
      → (o : List String) × (order names (map entry (add_all calls [])) ≡ ordered o)
        × IsSorted names (map entry (add_all calls [])) o
  calls-IsSorted p =
      let all = add_all calls [] in
      let entries = add_all-IsEntry calls rank calls [] p tt in
      let wf : Wf names (map entry all) = record {
        unique = ids-Distinct all (add_all-Unique calls [] tt);
        single = singles all entries;
        small = smalls all entries;
      } in
      order-IsSorted names (map entry all) rank wf
        (founds all (λ k m. all-There calls [] k m) all entries) (ranked all entries)
