-- ===== src/Terminal/Lease.antt =====
-- The writer lease of a terminal: class Lease of cpp/terminal/recording.cpp. Times are nanoseconds
-- of the steady clock; the random token of `acquire` is an argument.
pub mod Writer
use Prim.Native.String.{String, len}
use text.Mathlib.Text.{◌==◌}
use graphlab.Prelude.{
  ℕ, ◌+◌, Bool, true, false, not, ◌&&◌, ◌||◌, List, [], ◌∷◌, ltb, leb, ◌==◌ as nat_eq, Result, ok,
  err, guard, ◌>>=◌, ◌>>◌,
}

pub data Failure : Type 0 where
  invalid_terminal_owner writer_busy writer_lease_expired : Failure

pub record Lease : Type 0 where
  pub owner : String
  pub token : String
  pub until : ℕ

-- 15 seconds
abbrev pub lifetime : ℕ
lifetime = 15_000_000_000

unfoldable pub acquire : Lease → String → Bool → ℕ → String → Result Failure Lease
acquire l owner takeover now fresh = do
  guard (not (nat_eq (len owner) 0 || ltb 128 (len owner))) invalid_terminal_owner
  guard (not (ltb now l.until && not takeover)) writer_busy
  ok (record { owner = owner; token = fresh; until = now + lifetime })

unfoldable pub require : Lease → String → String → ℕ → Result Failure (Unit {0})
require l owner token now =
    guard (not (leb l.until now || not (owner == l.owner) || not (token == l.token)))
      writer_lease_expired

unfoldable pub renew : Lease → String → String → ℕ → Result Failure Lease
renew l owner token now = do require l owner token now; ok (record l { until = now + lifetime })

unfoldable pub revoke : Lease → Lease
revoke l = record { owner = ""; token = ""; until = 0 }

pub data Call : Type 0 where
  acquires : String → Bool → String → Call
  renews : String → String → Call
  revokes : Call

-- A call that throws leaves the lease as it was.
abbrev after : Lease → Result Failure Lease → Lease
after l (ok m) = m
after l (err e) = l

unfoldable pub step : Lease → ℕ × Call → Lease
step l (now, acquires owner takeover fresh) = after l (acquire l owner takeover now fresh)
step l (now, renews owner token) = after l (renew l owner token now)
step l (now, revokes) = revoke l

unfoldable pub run : Lease → List (ℕ × Call) → Lease
unfolding step
run l [] = l
run l (c ∷ cs) = run (step l c) cs
