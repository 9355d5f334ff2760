-- ===== src/Sources.antt =====
-- The traffic sources of a container: class Sources of packages/lab-support/cpp/source_control.hpp, which
-- takes the commands that cpp/runtime/source_control.cpp sends. An object of the JSON library is its
-- members in the order of the names; the commands are kept latest first.
pub mod Ledger
pub mod Honoured
pub mod Switches
pub mod Protocol
mod Tests
use Prim.Native.Nat.{Ordering}
use Prim.Native.String.{String, compare}
use text.Mathlib.Text.{◌==◌}
use graphlab.Prelude.{
  ℕ, Bool, true, false, not, ◌&&◌, ◌||◌, List, [], ◌∷◌, Option, none, some, ltb, length,
  ◌==◌ as nat_eq, Result, ok, err, guard, ◌>>=◌, ◌>>◌, if◌then◌else◌,
}
use graphlab.Runtime.Source.Requests.{
  Members, Value, json_string, other, field, same_members, is_request_id, Params, value,
}
use graphlab.Runtime.Source.Store.{lookup, place}

pub data Failure : Type 0 where
  source_contract_invalid source_request_id_invalid source_epoch_changed : Failure
  source_control_unsupported source_request_conflict source_command_capacity json_error : Failure

pub record Sources : Type 0 where
  pub epoch : String
  pub alpha_paused : Bool
  pub beta_paused : Bool
  pub commands : List (String × Members)

abbrev pub fresh : String → Sources
fresh epoch = record { epoch = epoch; alpha_paused = false; beta_paused = false; commands = [] }

abbrev pub is_before : String → String → Bool
is_before a b = elim (compare a b) [ Ordering.lt ↦ true | _ ↦ false ]

abbrev pub with_outcome : Members → Members
with_outcome p = place is_before "outcome" (json_string "acknowledged") p

abbrev pub version : Option Value → Result Failure (Unit {0})
version none = err source_contract_invalid
version (some (json_string s)) = guard (s == "graphlab.source-control/v1") source_contract_invalid
version (some other) = err json_error

abbrev pub as_string : Option String → Result Failure String
as_string none = err source_contract_invalid
as_string (some s) = ok s

pub record Checked : Type 0 where
  pub id : String
  pub source : String
  pub is_pause : Bool

-- What `apply` asks of a command before it looks at the ones it had.
unfoldable pub checked : String → Members → Result Failure Checked
checked epoch p = do
  guard (nat_eq (length p) 5) source_contract_invalid
  version (lookup p "apiVersion")
  id ← as_string (field p "requestId")
  of_epoch ← as_string (field p "epoch")
  source ← as_string (field p "source")
  action ← as_string (field p "action")
  guard (is_request_id id) source_request_id_invalid
  guard (of_epoch == epoch) source_epoch_changed
  guard ((source == "alpha" || source == "beta") && (action == "pause" || action == "resume"))
      source_control_unsupported
  ok record { id = id; source = source; is_pause = action == "pause" }

abbrev pub accepted : Sources → Members → Checked → Sources
accepted s p c = record s {
  alpha_paused = if c.source == "alpha" then c.is_pause else s.alpha_paused;
  beta_paused = if c.source == "alpha" then s.beta_paused else c.is_pause;
  commands = (c.id, p) ∷ s.commands;
}

abbrev pub entered : Sources → Members → Checked → Option Members → Sources × Result Failure Members
entered s p c (some old) =
    if same_members old p then (s, ok (with_outcome p)) else (s, err source_request_conflict)
entered s p c none =
    if ltb (length s.commands) 256
    then (accepted s p c, ok (with_outcome p))
    else (s, err source_command_capacity)

abbrev pub answered : Sources → Members → Result Failure Checked → Sources × Result Failure Members
answered s p (err e) = (s, err e)
answered s p (ok c) = entered s p c (lookup s.commands c.id)

-- `Sources::apply`
unfoldable pub apply : Sources → Members → Sources × Result Failure Members
unfolding checked
apply s p = answered s p (checked s.epoch p)

-- Commands one after the other, whether they are accepted or not.
unfoldable pub apply_all : Sources → List Members → Sources
apply_all s [] = s
apply_all s (p ∷ ps) = apply_all (apply s p).0 ps

-- `wire`: what the engine sends for a command.
abbrev pub sent : Params → Members
sent p =
    ("action", json_string (value p "action"))
    ∷ ("apiVersion", json_string (value p "apiVersion"))
    ∷ ("epoch", json_string (value p "epoch"))
    ∷ ("requestId", json_string (value p "requestId"))
    ∷ ("source", json_string (value p "source"))
    ∷ []
