-- ===== src/Runtime/Execution/Cleanup.antt =====
-- The end of a run: `cleanup` and `close_captures` of cpp/runtime/engine.cpp, and `m5_clear` of
-- cpp/telemetry/engine.cpp.
use Prim.Native.String.{String}
use graphlab.Prelude.{
  ℕ, zero, suc, Bool, true, false, ◌||◌, List, [], ◌∷◌, ◌++◌, Option, none, some, if◌then◌else◌,
  length, get_elem?,
}
use graphlab.Runtime.Execution.State.{
  RunState, ready, stopped, reconciling, Resource, removed, Coverage, closed, closed_incomplete,
  incomplete, Fault, Run, capture_stop, remove, fault_remove, stop_session, Answer, partly, M,
  modify, get_run, ask, call, save,
}
use graphlab.Runtime.Machine.{◌>>=◌, ◌>>◌, pure, when}

-- The helper `state` of `execute`.
unfoldable pub set_state : RunState → M (Unit {0})
unfolding save
set_state s = modify (λ r. record r { state = s }) >> save

abbrev pub is_ready : RunState → Bool
is_ready ready = true
is_ready _ = false

abbrev pub is_stopped : RunState → Bool
is_stopped stopped = true
is_stopped _ = false

abbrev pub is_reconciling : RunState → Bool
is_reconciling reconciling = true
is_reconciling _ = false

abbrev pub is_removed : Resource → Bool
is_removed r = elim r.state [ removed ↦ true | _ ↦ false ]

abbrev pub is_closed_incomplete : Coverage → Bool
is_closed_incomplete closed_incomplete = true
is_closed_incomplete _ = false

abbrev pub was_incomplete : Coverage → Bool
was_incomplete incomplete = true
was_incomplete closed_incomplete = true
was_incomplete _ = false

abbrev pub not_all_closed : Answer → Bool
not_all_closed partly = true
not_all_closed _ = false

abbrev pub closing : Answer → Run → Run
closing a r = record r {
  coverage = if was_incomplete r.coverage || not_all_closed a then closed_incomplete else closed;
}

unfoldable pub close_captures : M (Unit {0})
unfolding ask save
close_captures =
    get_run >>= λ run. when run.is_recorded (do a ← ask capture_stop; modify (closing a); save)

-- The entry at an index, changed.
abbrev pub modify_at : ℕ → (Resource → Resource) → List Resource → List Resource
modify_at i f [] = []
modify_at zero f (r ∷ rs) = f r ∷ rs
modify_at (suc i) f (r ∷ rs) = r ∷ modify_at i f rs

abbrev pub removed_at : ℕ → Run → Run
removed_at i r = record r {
  resources = modify_at i (λ x. record x { state = removed }) r.resources;
}

-- The faults up to one that was just removed; the others are still to come.
abbrev pub cleared : List Fault → Fault → List Fault → Run → Run
cleared done f rest r = record r { faults = done ++ record f { is_live = false } ∷ rest }

-- `m5_clear`
unfoldable pub clear_faults : List Fault → List Fault → M (Unit {0})
clear_faults done [] = pure tt
clear_faults done (f ∷ rest) =
    let next = clear_faults (done ++ record f { is_live = false } ∷ []) rest in
    let skip = clear_faults (done ++ f ∷ []) rest in
    if f.is_live
    then (do call (fault_remove f.id); modify (cleared done f rest); save; next)
    else skip

unfoldable pub stop_sessions : List String → M (Unit {0})
stop_sessions [] = pure tt
stop_sessions (s ∷ ss) = call (stop_session s) >> stop_sessions ss

-- The loop of `cleanup` over the resources, from the last one; nothing else changes them meanwhile.
unfoldable pub remove_resource : ℕ → Option Resource → M (Unit {0})
remove_resource i none = pure tt
remove_resource i (some r) =
    if is_removed r then pure tt else (do call (remove r.key); modify (removed_at i); save)

unfoldable pub remove_resources : ℕ → M (Unit {0})
unfolding remove_resource
remove_resources zero = pure tt
remove_resources (suc i) =
    get_run >>= λ run. remove_resource i (get_elem? run.resources i) >> remove_resources i

unfoldable pub cleanup : M (Unit {0})
unfolding clear_faults close_captures stop_sessions remove_resources
cleanup = do
  before ← get_run
  clear_faults [] before.faults
  close_captures
  run ← get_run
  stop_sessions run.sessions
  remove_resources (length run.resources)
