-- ===== src/Runtime/Source/Requests.antt =====
-- What cpp/runtime/source_control.cpp asks of a request and of a container's capability:
-- `validate`, `valid_capability`, `capability` and `wire`.
use Prim.Native.Char.{code}
use Prim.Native.String.{String, len, [], ◌∷◌}
use text.Mathlib.Text.{◌==◌}
use mathlib.Core.List.{List}
use graphlab.Prelude.{
  ℕ, Bool, true, false, not, ◌&&◌, ◌||◌, leb, ◌==◌ as nat_eq, length, Result, ok, guard, ◌>>◌,
  Option, none, some, if◌then◌else◌,
}

-- `backend` is an exception of the backend, with `timeout` in its message or not.
pub data Failure : Type 0 where
  source_request_invalid source_run_unavailable source_node_unavailable : Failure
  source_instance_changed source_not_declared operation_in_progress : Failure
  source_command_pending source_command_capacity source_request_conflict : Failure
  source_capability_invalid source_epoch_changed source_control_unsupported : Failure
  source_queue_deadline source_acknowledgement_invalid : Failure
  journal_unavailable journal_commit_failed not_found json_error : Failure
  backend : Bool → Failure

-- A value of JSON: a string, or anything else.
pub data Value : Type 0 where
  json_string : String → Value
  other : Value

abbrev pub Members : Type 0
Members = List (String × Value)

-- An object, whose members stand in the order of their names, and the length of its text.
pub record Params : Type 0 where
  pub members : Members
  pub dumped : ℕ

abbrev pub field : Members → String → Option String
field List.[] k = none
field (List.◌∷◌ (n, json_string v) ms) k = if n == k then some v else field ms k
field (List.◌∷◌ (n, other) ms) k = if n == k then none else field ms k

abbrev or_empty : Option String → String
or_empty none = ""
or_empty (some s) = s

abbrev pub value : Params → String → String
value p k = or_empty (field p.members k)

-- One side holds strings only wherever the code compares.
abbrev same_value : Value → Value → Bool
same_value (json_string a) (json_string b) = a == b
same_value other other = true
same_value _ _ = false

abbrev pub same_members : Members → Members → Bool
same_members List.[] List.[] = true
same_members (List.◌∷◌ (m, v) ms) (List.◌∷◌ (n, w) ns) =
    m == n && same_value v w && same_members ms ns
same_members _ _ = false

abbrev pub is_digit : ℕ → Bool
is_digit c = leb b'0' c && leb c b'9'

abbrev pub is_letter : ℕ → Bool
is_letter c = (leb b'A' c && leb c b'Z') || (leb b'a' c && leb c b'z')

-- `[A-Za-z0-9_-]`
abbrev pub is_word : ℕ → Bool
is_word c = is_letter c || is_digit c || nat_eq c b'_' || nat_eq c b'-'

-- `[a-f0-9]`
abbrev pub is_hex : ℕ → Bool
is_hex c = (leb b'a' c && leb c b'f') || is_digit c

abbrev pub all_of : (ℕ → Bool) → String → Bool
all_of f [] = true
all_of f (c ∷ s) = f (code c) && all_of f s

-- `[A-Za-z0-9_-]{1,64}`
abbrev pub is_request_id : String → Bool
is_request_id s = all_of is_word s && leb 1 (len s) && leb (len s) 64

-- `[a-f0-9]{32}`
abbrev is_epoch : String → Bool
is_epoch s = all_of is_hex s && nat_eq (len s) 32

-- `[A-Za-z][A-Za-z0-9_-]{0,63}`
abbrev pub is_source_id : String → Bool
is_source_id [] = false
is_source_id (c ∷ s) = is_letter (code c) && all_of is_word s && leb (len s) 63

-- `0|[1-9][0-9]{0,19}`
abbrev is_count : String → Bool
is_count [] = false
is_count (c ∷ s) =
    (nat_eq (code c) b'0' && nat_eq (len s) 0)
    || (leb b'1' (code c) && leb (code c) b'9' && all_of is_digit s && leb (len s) 19)

-- A member that is a string of 1 to 128 bytes.
abbrev is_named : Members → String → Bool
is_named ms k = let s = or_empty (field ms k) in leb 1 (len s) && leb (len s) 128

-- `validate` of a command.
unfoldable pub validate : Params → Result Failure (Unit {0})
validate p = do
  guard (nat_eq (length p.members) 8 && leb p.dumped 1024) source_request_invalid
  guard
      (is_named p.members "runId"
        && is_named p.members "node"
        && is_named p.members "apiVersion"
        && is_named p.members "instance"
        && is_named p.members "epoch"
        && is_named p.members "source"
        && is_named p.members "action"
        && is_named p.members "requestId")
      source_request_invalid
  guard
      (value p "apiVersion" == "graphlab.source-control/v1"
        && (value p "action" == "pause" || value p "action" == "resume")
        && is_request_id (value p "requestId"))
      source_request_invalid

-- What is sent to the container, with the outcome that its acknowledgement adds.
abbrev pub wire : Params → Members
wire p =
    List.◌∷◌ ("action", json_string (value p "action"))
      (List.◌∷◌ ("apiVersion", json_string (value p "apiVersion"))
        (List.◌∷◌ ("epoch", json_string (value p "epoch"))
          (List.◌∷◌ ("outcome", json_string "acknowledged")
            (List.◌∷◌ ("requestId", json_string (value p "requestId"))
              (List.◌∷◌ ("source", json_string (value p "source")) List.[])))))

pub record Reported : Type 0 where
  pub id : String
  pub state : String
  pub generated_datagrams : String

-- A capability; a member that is absent reads as an empty text, `sources` as `none`.
pub record Status : Type 0 where
  pub api_version : String
  pub dumped : ℕ
  pub epoch : String
  pub sources : Option (List Reported)

abbrev has_source : List Reported → String → Bool
has_source List.[] k = false
has_source (List.◌∷◌ r rs) k = r.id == k || has_source rs k

abbrev among : List String → String → Bool
among List.[] k = false
among (List.◌∷◌ x xs) k = x == k || among xs k

unfoldable sources_valid : List String → List Reported → Result Failure (Unit {0})
sources_valid seen List.[] = ok tt
sources_valid seen (List.◌∷◌ r rs) =
    guard
      (is_source_id r.id
        && (r.state == "paused" || r.state == "running")
        && is_count r.generated_datagrams
        && not (among seen r.id))
      source_capability_invalid
    >> sources_valid (List.◌∷◌ r.id seen) rs

abbrev listed : Option (List Reported) → List Reported
listed none = List.[]
listed (some rs) = rs

unfoldable pub valid_capability : Status → Result Failure (Unit {0})
unfolding sources_valid
valid_capability s = do
  guard
      (s.api_version == "graphlab.source-control/v1"
        && leb s.dumped 2048
        && leb 1 (length (listed s.sources))
        && leb (length (listed s.sources)) 4
        && is_epoch s.epoch)
      source_capability_invalid
  sources_valid List.[] (listed s.sources)

unfoldable pub capability : Status → Params → Result Failure (Unit {0})
unfolding valid_capability
capability s p = do
  valid_capability s
  guard (s.epoch == value p "epoch") source_epoch_changed
  guard (has_source (listed s.sources) (value p "source")) source_control_unsupported
