-- ===== src/Sources/Protocol.antt =====
-- The engine's commands and the container's answers: what cpp/runtime/source_control.cpp sends and
-- expects, and what class Sources makes of it.
use text.Mathlib.Text.{◌==◌}
use graphlab.Prelude.{◌≡◌, refl, arith, true, ◌||◌, ltb, length, none, ok}
use graphlab.Runtime.Source.Requests.{Params, value, validate, wire, is_request_id}
use graphlab.Runtime.Source.Store.{lookup, place}
use graphlab.Sources.{Sources, checked, apply, sent}

record Valid (p : Params) : Type 0 where
  version : (value p "apiVersion" == "graphlab.source-control/v1") ≡ true
  action : (value p "action" == "pause" || value p "action" == "resume") ≡ true
  id : is_request_id (value p "requestId") ≡ true

validate-Valid : (p : Params) → validate p ≡ ok tt → Valid p
unfolding validate
validate-Valid p h = record {
  version = ground (arith, h);
  action = ground (arith, h);
  id = ground (arith, h);
}

-- A command that the engine's check passes, for the epoch of the sources and one of the two sources,
-- under a new name while there is room, is acknowledged with the answer that the engine expects.
pub apply-sent-wire :
    (s : Sources) (p : Params)
    → validate p ≡ ok tt
    → (value p "epoch" == s.epoch) ≡ true
    → (value p "source" == "alpha" || value p "source" == "beta") ≡ true
    → lookup s.commands (value p "requestId") ≡ none
    → ltb (length s.commands) 256 ≡ true
    → (apply s (sent p)).1 ≡ ok (wire p)
unfolding apply checked place
apply-sent-wire s p h e k n l =
    let v = validate-Valid p h in rw (v.version, v.id, e, k, v.action, n, l) refl
