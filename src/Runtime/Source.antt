-- ===== src/Runtime/Source.antt =====
-- Source commands: cpp/runtime/source_control.cpp. The answers of the backend, the journal and the
-- clock are arguments; the digest that names a command and the order of the names are the section's.
-- A JSON object is its members by name, with the length of its text, which the JSON library gives.
pub mod Requests
pub mod Store
pub mod Commands
pub mod History
pub mod Invariant
pub mod Outcomes
pub mod Retries
use Prim.Native.String.{String}
use text.Mathlib.Text.{◌==◌}
use graphlab.Prelude.{
  ℕ, ◌+◌, Bool, true, false, not, ◌&&◌, ◌||◌, List, [], ◌∷◌, ltb, leb, if◌then◌else◌, length,
  Result, ok, err, guard, ◌>>=◌, ◌>>◌, Option, none, some,
}
use graphlab.Runtime.Source.Requests.{
  Failure, Params, Status, source_instance_changed, source_not_declared, operation_in_progress,
  source_command_pending, source_command_capacity, source_run_unavailable, source_node_unavailable,
  source_request_conflict, journal_unavailable, not_found, source_queue_deadline, json_error,
  source_acknowledgement_invalid, journal_commit_failed, backend, value, validate, capability,
  same_members, wire, Members,
}
use graphlab.Runtime.Source.Store.{lookup, place, replace}

pub record Resource : Type 0 where
  pub logical : String
  pub kind : String
  pub identity : Option String
  pub state : String

-- An edge of the application: its id and its source node.
pub record Edge : Type 0 where
  pub id : String
  pub source : String

pub record Run : Type 0 where
  pub state : String
  pub resources : List Resource
  pub edges : List Edge

pub data Outcome : Type 0 where
  requested acknowledged timed_out failed interrupted : Outcome

pub record Command : Type 0 where
  pub request : Params
  pub outcome : Outcome
  pub deadline_ms : ℕ
  pub error : Option Failure

-- The part of the engine's state that source commands read and write; `jobs` are the jobs' states.
pub record State : Type 0 where
  pub stopping : Bool
  pub runs : List (String × Run)
  pub jobs : List String
  pub commands : List (String × Command)

abbrev is_live : Resource → String → Option String → Option String
is_live r node none = none
is_live r node (some id) =
    if r.logical == node && r.kind == "container" && not (r.state == "removed")
    then some id
    else none

-- `resource`: the identity of the first live container of the node.
unfoldable pub resource : List Resource → String → Result Failure String
resource [] node = err source_node_unavailable
resource (r ∷ rs) node = elim (is_live r node r.identity) [
  | some id ↦ ok id
  | none ↦ resource rs node
]

unfoldable pub available : Run → Result Failure (Unit {0})
available run = guard (run.state == "ready" || run.state == "stopped") source_run_unavailable

abbrev pub declared : List Edge → String → String → Bool
declared [] source node = false
declared (e ∷ es) source node = (e.id == source && e.source == node) || declared es source node

abbrev pub any_pending : List String → Bool
any_pending [] = false
any_pending (j ∷ js) = (j == "queued" || j == "running") || any_pending js

unfoldable pub is_requested : Command → Bool
is_requested c = elim c.outcome [ requested ↦ true | _ ↦ false ]

unfoldable pub same_target : Params → Params → Bool
same_target p q =
    value p "runId" == value q "runId"
    && value p "node" == value q "node"
    && value p "source" == value q "source"

-- The loop over the commands: how many are requested, and whether one of these has the target.
abbrev pub requests : List (String × Command) → ℕ
requests [] = 0
requests (c ∷ cs) = let rest = requests cs in if is_requested c.1 then rest + 1 else rest

abbrev pub is_pending : Params → List (String × Command) → Bool
is_pending p [] = false
is_pending p (c ∷ cs) = (is_requested c.1 && same_target c.1.request p) || is_pending p cs

-- The checks on a new command, in the order of the code: first those on the run,
unfoldable pub targeted : Run → Params → Result Failure (Unit {0})
unfolding available resource
targeted run p = do
  available run
  id ← resource run.resources (value p "node")
  guard (id == value p "instance") source_instance_changed
  guard (declared run.edges (value p "source") (value p "node")) source_not_declared

-- then those on what is going on,
unfoldable pub has_room : State → Params → Result Failure (Unit {0})
has_room s p = do
  guard (not (any_pending s.jobs)) operation_in_progress
  guard (not (is_pending p s.commands)) source_command_pending
  guard (ltb (requests s.commands) 8 && ltb (length s.commands) 256) source_command_capacity

abbrev pub is_capable : Params → Result Failure Status → Result Failure (Unit {0})
is_capable p status = status >>= λ answer. capability answer p

-- and last that on the container's capability.
unfoldable pub admit : State → Run → Params → Result Failure Status → Result Failure (Unit {0})
unfolding targeted has_room
admit s run p status = targeted run p >> (has_room s p >> is_capable p status)

-- What the backend, the clock and the journal answer to one command.
pub record Answers : Type 0 where
  pub status : Result Failure Status
  pub now_ms : ℕ
  pub saved : Bool

-- `save`, which stops the engine where the journal cannot be written.
unfoldable pub save : {A : Type 0} → State → Bool → A → State × Result Failure A
save s true a = (s, ok a)
save s false a = (record s { stopping = true }, err journal_commit_failed)

abbrev pub new_command : Params → ℕ → Command
new_command p now = record {
  request = p;
  outcome = requested;
  deadline_ms = now + 10_000;
  error = none;
}

module _ (digest : ℕ → String → String) (less : String → String → Bool) where
  -- `Engine::source_dispatch` on `source-controls.command`, behind the check of `dispatch` on
  -- `stopping_`.
  unfoldable pub source_dispatch : State → ℕ → Params → Answers → State × Result Failure Command
  source_dispatch s principal p k =
      let key = digest principal (value p "requestId") in
      if s.stopping then (s, err journal_unavailable) else elim (validate p) [
        | err e ↦ (s, err e)
        | ok _ ↦ elim (lookup s.runs (value p "runId")) [
          | none ↦ (s, err not_found)
          | some run ↦ elim (lookup s.commands key) [
            | some old ↦
                if same_members old.request.members p.members
                then (s, ok old)
                else (s, err source_request_conflict)
            | none ↦ elim (admit s run p k.status) [
              | err e ↦ (s, err e)
              | ok _ ↦
                  save (record s { commands = place less key (new_command p k.now_ms) s.commands })
                    k.saved (new_command p k.now_ms)
            ]
          ]
        ]
      ]

-- The first half of `source_work`: the first command that is requested.
unfoldable pub pick : List (String × Command) → Option (String × Command)
unfolding is_requested
pick [] = none
pick (c ∷ cs) = if is_requested c.1 then some c else pick cs

-- What the backend and the clock answer while a command is executed.
pub record Execution : Type 0 where
  pub now_ms : ℕ
  pub status : Result Failure Status
  pub acknowledgement : Result Failure Members

unfoldable pub attempt : Option Run → Params → Execution → Result Failure (Unit {0})
unfolding available resource
attempt none p x = err json_error
attempt (some run) p x = do
  available run
  id ← resource run.resources (value p "node")
  guard (id == value p "instance") source_instance_changed
  answer ← x.status
  capability answer p
  ack ← x.acknowledgement
  guard (same_members ack (wire p)) source_acknowledgement_invalid

-- `error.find("timeout")` finds it only in a message of the backend.
abbrev failed_with : Failure → Outcome
failed_with (backend true) = timed_out
failed_with e = failed

abbrev concluded : Result Failure (Unit {0}) → Outcome × Option Failure
concluded (ok _) = (acknowledged, none)
concluded (err e) = (failed_with e, some e)

unfoldable pub execute : Option Run → Command → Execution → Outcome × Option Failure
execute run c x =
    if leb c.deadline_ms x.now_ms
    then (timed_out, some source_queue_deadline)
    else concluded (attempt run c.request x)

abbrev pub settle : Outcome × Option Failure → Command → Command
settle o c = record c { outcome = o.0; error = o.1 }

-- The second half of `source_work`.
unfoldable pub finish :
    State → String → Outcome × Option Failure → Bool → State × Result Failure (Unit {0})
finish s key o saved = save (record s { commands = replace key (settle o) s.commands }) saved tt
