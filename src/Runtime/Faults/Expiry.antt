-- ===== src/Runtime/Faults/Expiry.antt =====
-- What a round of the monitor leaves of a fault whose time is up.
use Prim.Native.String.{String}
use graphlab.Prelude.{◌≡◌, Bool, true, false, some}
use graphlab.Runtime.Source.Store.{lookup}
use graphlab.Runtime.Jobs.Tables.{removed, recovery_required}
use graphlab.Runtime.Faults.{Fault, Run, World}

abbrev is_over : Fault → Bool
is_over f = elim f.state [ removed ↦ true | recovery_required ↦ true | _ ↦ false ]

abbrev HasFault : String → Run → Type 0
HasFault n r = (f : Fault) × (lookup r.faults n ≡ some f)

-- The fault is removed, or recorded as one that could not be removed.
abbrev pub Ended : String → Run → Type 0
Ended n r = (f : Fault) × (lookup r.faults n ≡ some f) × (is_over f ≡ true)

abbrev On : (Run → Type 0) → World → Type 0
On J w = J w.run

abbrev AnyRun : Run → Type 0
AnyRun r = Unit
