-- ===== src/Planner/Tests.antt =====
-- The ordering run on small plans, whose steps are numbers.
use graphlab.Prelude.{ℕ, ◌-◌, ◌≡◌, ◌⊎◌, refl, List, [], ◌∷◌, ◌==◌, ==_iff, ltb, arith}
use graphlab.Planner.Order.{Keys, Entry, order, ordered, resource_dependency_cycle}
use graphlab.Planner.Order.Sound.Loop.{Wf}
use graphlab.Planner.Order.Results.{order-IsSorted, order-IsSorted_or_cycle, IsSorted}

abbrev numbers : Keys
numbers = record { Key = ℕ; eq = ◌==◌; lt = ltb; eq_iff = ==_iff }

abbrev step : ℕ → List ℕ → Entry numbers
step id ds = record { id = id; depends_on = ds }

-- Preflight, two preparations, a link that needs both.
abbrev plan : List (Entry numbers)
plan = step 1 (2 ∷ 3 ∷ []) ∷ step 2 (4 ∷ []) ∷ step 3 (4 ∷ []) ∷ step 4 [] ∷ []

plan-order : order numbers plan ≡ ordered (1 ∷ 3 ∷ 2 ∷ 4 ∷ [])
unfolding order
plan-order = refl

plan-Wf : Wf numbers plan
plan-Wf = record { unique = ground arith; single = ground arith; small = ground arith }

abbrev rank : ℕ → ℕ
rank x = 4 - x

order-IsSorted_example : (o : List ℕ) × (order numbers plan ≡ ordered o) × IsSorted numbers plan o
order-IsSorted_example =
    order-IsSorted numbers plan rank plan-Wf
      ((λ e. cc, (λ e. cc, tt)), ((λ e. cc, tt), ((λ e. cc, tt), (tt, tt))))
      ((ground arith, (ground arith, tt)), ((ground arith, tt), ((ground arith, tt), (tt, tt))))

abbrev loop : List (Entry numbers)
loop = step 1 (2 ∷ []) ∷ step 2 (1 ∷ []) ∷ step 3 [] ∷ []

loop-order : order numbers loop ≡ resource_dependency_cycle
unfolding order
loop-order = refl

order-IsSorted_or_cycle_example :
    ((o : List ℕ) × (order numbers loop ≡ ordered o) × IsSorted numbers loop o)
    ⊎ (order numbers loop ≡ resource_dependency_cycle)
order-IsSorted_or_cycle_example =
    order-IsSorted_or_cycle numbers loop
      (record { unique = ground arith; single = ground arith; small = ground arith })
      ((λ e. cc, tt), ((λ e. cc, tt), (tt, tt)))
