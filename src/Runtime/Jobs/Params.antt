-- ===== src/Runtime/Jobs/Params.antt =====
-- The parameters of a request for a job: `fields` and `string` of cpp/runtime/engine.cpp, the capture
-- policy of its `dispatch`, and `validate_fault` of cpp/telemetry/store.cpp.
use Prim.Native.String.{String, len}
use text.Mathlib.Text.{◌==◌}
use graphlab.Prelude.{
  ℕ, ◌*◌, Bool, true, false, not, ◌&&◌, ◌||◌, List, [], ◌∷◌, Option, none, some, leb,
  ◌==◌ as nat_eq, Result, ok, err, guard, ◌>>=◌, ◌>>◌, if◌then◌else◌,
}
use graphlab.Runtime.Source.Store.{lookup}

pub data Failure : Type 0 where
  invalid_params unknown_parameter missing json_error not_found : Failure
  cleanup_operations_not_cancellable invalid_idempotency_key idempotency_conflict : Failure
  journal_unavailable journal_commit_failed journal_job_capacity operation_in_progress : Failure
  invalid_observation_profile active_run_exists unknown_topology development_mode_required : Failure
  invalid_capture_policy capture_requires_reversible_quiescence : Failure
  linux_interface_name_too_long stale_revision unsupported_operation invalid_run_state : Failure
  fault_run_not_available fault_capacity fault_direction_busy fault_not_found : Failure
  invalid_fault unknown_fault_field invalid_fault_value empty_fault backend : Failure

-- A value of JSON that is no object; `other` is none of the kinds that the code asks for.
pub data Scalar : Type 0 where
  quoted : String → Scalar
  flag : Bool → Scalar
  number : ℕ → Scalar
  negative other : Scalar

pub data Value : Type 0 where
  scalar : Scalar → Value
  object : List (String × Scalar) → Value

abbrev pub Members : Type 0
Members = List (String × Value)

abbrev among : String → List String → Bool
among k [] = false
among k (n ∷ ns) = k == n || among k ns

-- No member but those allowed.
abbrev pub only {ℓ} : {A : Type ℓ} → List String → List (String × A) → Bool
only ns [] = true
only ns (m ∷ ms) = among m.0 ns && only ns ms

abbrev pub fields {ℓ} : {A : Type ℓ} → List (String × A) → List String → Result Failure (Unit {0})
fields ms ns = guard (only ns ms) unknown_parameter

abbrev as_string : Option Value → Result Failure String
as_string (some (scalar (quoted s))) = ok s
as_string _ = err missing

-- `string`
unfoldable pub string : Members → String → Result Failure String
string ms k = as_string (lookup ms k)

abbrev as_scalar : Option Value → Option Scalar
as_scalar none = none
as_scalar (some (scalar s)) = some s
as_scalar (some (object ms)) = some other

-- `value` of the JSON library with a default, which throws on a value of another kind.
abbrev pub string_or : Option Scalar → String → Result Failure String
string_or none d = ok d
string_or (some (quoted s)) d = ok s
string_or (some _) d = err json_error

abbrev flag_or : Option Scalar → Bool → Result Failure Bool
flag_or none d = ok d
flag_or (some (flag b)) d = ok b
flag_or (some _) d = err json_error

abbrev pub value_string : Members → String → String → Result Failure String
value_string ms k d = string_or (as_scalar (lookup ms k)) d

abbrev pub value_flag : Members → String → Bool → Result Failure Bool
value_flag ms k d = flag_or (as_scalar (lookup ms k)) d

pub record Policy : Type 0 where
  pub run_bytes : ℕ
  pub reserve_bytes : ℕ
  pub rotate_bytes : ℕ
  pub rotate_seconds : ℕ

abbrev gib : ℕ
gib = 1024 * 1024 * 1024

abbrev default_policy : Policy
default_policy = record {
  run_bytes = 6 * gib;
  reserve_bytes = 5 * gib;
  rotate_bytes = 64 * (1024 * 1024);
  rotate_seconds = 60;
}

abbrev set_member : String → ℕ → Policy → Policy
set_member k v p =
    if k == "runBytes"
    then record p { run_bytes = v }
    else if k == "reserveBytes"
    then record p { reserve_bytes = v }
    else if k == "rotateBytes"
    then record p { rotate_bytes = v }
    else record p { rotate_seconds = v }

abbrev as_unsigned : Scalar → Result Failure ℕ
as_unsigned (number n) = ok n
as_unsigned _ = err invalid_capture_policy

unfoldable pub overridden : List (String × Scalar) → Policy → Result Failure Policy
overridden [] p = ok p
overridden (m ∷ ms) p = as_unsigned m.1 >>= λ v. overridden ms (set_member m.0 v p)

unfoldable pub chosen : Option Value → Result Failure Policy
unfolding overridden
chosen none = ok default_policy
chosen (some (scalar s)) = err invalid_params
chosen (some (object ms)) =
    fields ms ("runBytes" ∷ "reserveBytes" ∷ "rotateBytes" ∷ "rotateSeconds" ∷ [])
    >> overridden ms default_policy

abbrev pub between : ℕ → ℕ → ℕ → Bool
between a b n = leb a n && leb n b

abbrev is_valid : Policy → Bool
is_valid p =
    between 262144 (6 * gib) p.run_bytes
    && between (1024 * 1024) (5 * gib) p.reserve_bytes
    && between 4096 (64 * (1024 * 1024)) p.rotate_bytes
    && between 1 60 p.rotate_seconds

unfoldable pub capture_policy : Members → Result Failure Policy
unfolding chosen
capture_policy ms =
    chosen (lookup ms "capturePolicy") >>= λ p. guard (is_valid p) invalid_capture_policy >> ok p

-- A fault as requested.
pub record FaultRequest : Type 0 where
  pub edge : String
  pub direction : String
  pub delay_ms : ℕ
  pub loss_percent : ℕ
  pub duration_seconds : ℕ

abbrev as_edge : Option Scalar → Result Failure String
as_edge (some (quoted s)) = guard (leb 1 (len s) && leb (len s) 80) invalid_fault >> ok s
as_edge _ = err invalid_fault

abbrev up_to : ℕ → Option Scalar → Result Failure ℕ
up_to n none = ok 0
up_to n (some (number v)) = guard (leb v n) invalid_fault_value >> ok v
up_to n (some _) = err invalid_fault_value

unfoldable pub of_members : List (String × Scalar) → Result Failure FaultRequest
of_members ms = do
  guard
      (only ("edge" ∷ "direction" ∷ "kind" ∷ "delayMs" ∷ "lossPercent" ∷ "durationSeconds" ∷ []) ms)
      unknown_fault_field
  edge ← as_edge (lookup ms "edge")
  kind ← string_or (lookup ms "kind") ""
  guard (kind == "netem") invalid_fault
  direction ← string_or (lookup ms "direction") ""
  guard (direction == "a-to-b" || direction == "b-to-a") invalid_fault
  delay ← up_to 5000 (lookup ms "delayMs")
  loss ← up_to 100 (lookup ms "lossPercent")
  duration ← up_to 3600 (lookup ms "durationSeconds")
  guard (not (nat_eq duration 0 || (nat_eq delay 0 && nat_eq loss 0))) empty_fault
  ok record {
    edge = edge;
    direction = direction;
    delay_ms = delay;
    loss_percent = loss;
    duration_seconds = duration;
  }

-- `validate_fault`
unfoldable pub validate_fault : Option Value → Result Failure FaultRequest
unfolding of_members
validate_fault none = err json_error
validate_fault (some (scalar s)) = err invalid_fault
validate_fault (some (object ms)) = of_members ms
