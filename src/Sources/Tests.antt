-- ===== src/Sources/Tests.antt =====
-- Commands to concrete sources.
use Prim.Native.String.{String}
use graphlab.Prelude.{List, ◌≡◌, refl, [], ◌∷◌, ok}
use graphlab.Runtime.Source.Requests.{Members, Params, json_string, validate, wire}
use graphlab.Runtime.Source.Store.{place}
use graphlab.Sources.{Sources, fresh, sent, checked, apply, apply_all}
use graphlab.Sources.Ledger.{apply-apply_all-same}
use graphlab.Sources.Honoured.{Faithful, Honoured}
use graphlab.Sources.Switches.{apply_all-Faithful}
use graphlab.Sources.Protocol.{apply-sent-wire}

abbrev command : String → String → Params
command id action = record {
  members =
      ("action", json_string action)
      ∷ ("apiVersion", json_string "graphlab.source-control/v1")
      ∷ ("epoch", json_string "00000000000000000000000000000000")
      ∷ ("instance", json_string "c1")
      ∷ ("node", json_string "n1")
      ∷ ("requestId", json_string id)
      ∷ ("runId", json_string "run1")
      ∷ ("source", json_string "alpha")
      ∷ [];
  dumped = 210;
}

abbrev running : Sources
running = fresh "00000000000000000000000000000000"

paused : (apply running (sent (command "r1" "pause"))).1 ≡ ok (wire (command "r1" "pause"))
unfolding apply checked place
paused = refl

apply-apply_all-same_example :
    apply
      (apply_all
        (apply running (sent (command "r1" "pause"))).0
        (sent (command "r2" "resume") ∷ []))
      (sent (command "r1" "pause"))
    ≡ (
      apply_all (apply running (sent (command "r1" "pause"))).0 (sent (command "r2" "resume") ∷ []),
      ok (wire (command "r1" "pause")),
    )
apply-apply_all-same_example =
    apply-apply_all-same running (sent (command "r1" "pause")) (wire (command "r1" "pause"))
      (sent (command "r2" "resume") ∷ []) paused

-- A command, another, a conflict with the first, and the first again.
abbrev commands : List Members
commands =
    sent (command "r1" "pause")
    ∷ sent (command "r2" "resume")
    ∷ sent (command "r1" "resume")
    ∷ sent (command "r1" "pause")
    ∷ []

apply_all-Faithful_example :
    (all : List Members) × Honoured running [] commands all
    × Faithful (apply_all running commands) all
apply_all-Faithful_example = apply_all-Faithful "00000000000000000000000000000000" commands

request_valid : validate (command "r1" "pause") ≡ ok tt
unfolding validate
request_valid = refl

apply-sent-wire_example :
    (apply running (sent (command "r1" "pause"))).1 ≡ ok (wire (command "r1" "pause"))
apply-sent-wire_example =
    apply-sent-wire running (command "r1" "pause") request_valid refl refl refl refl
