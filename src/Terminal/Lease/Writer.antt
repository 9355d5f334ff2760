-- ===== src/Terminal/Lease/Writer.antt =====
-- Who may write to a terminal, over any history of lease calls.
use Prim.Native.String.{String}
use text.Mathlib.TextEquality.{eq_iff}
use graphlab.Prelude.{ℕ, ◌+◌, ◌≤◌, ◌<◌, ◌≡◌, ◌≢◌, List, [], ◌∷◌, Bool, false, arith, ok, err, All}
use graphlab.Terminal.Lease.{
  Lease, Call, acquires, renews, revokes, lifetime, acquire, require, renew, revoke, step, run,
  writer_lease_expired,
}

-- Nobody takes the lease over by force or revokes it.
abbrev pub IsPolite : Call → Type 0
IsPolite (acquires owner takeover fresh) = takeover ≡ false
IsPolite (renews owner token) = Unit
IsPolite revokes = ⊥

-- The writer's lease lasts at least up to `end`.
abbrev pub Holds : String → String → ℕ → Lease → Type 0
Holds owner token end l = (l.owner ≡ owner) × (l.token ≡ token) × (end ≤ l.until)

step-Holds :
    (owner token : String) (start now : ℕ) (l : Lease) (c : Call)
    → IsPolite c
    → start ≤ now
    → now < start + lifetime
    → Holds owner token (start + lifetime) l
    → Holds owner token (start + lifetime) (step l (now, c))
unfolding step acquire renew require
step-Holds owner token start now l (acquires o b fresh) p lo hi h = ground arith
step-Holds owner token start now l (renews o t) p lo hi h = ground arith
step-Holds owner token start now l revokes p lo hi h = absurd p

run-Holds :
    (owner token : String) (start : ℕ) (l : Lease) (cs : List (ℕ × Call))
    → All (λ c. IsPolite c.1 × (start ≤ c.0) × (c.0 < start + lifetime)) cs
    → Holds owner token (start + lifetime) l
    → Holds owner token (start + lifetime) (run l cs)
unfolding run
run-Holds owner token start l [] p h = h
run-Holds owner token start l (c ∷ cs) p h =
    run-Holds owner token start (step l c) cs p.1
      (step-Holds owner token start c.0 l c.1 p.0.0 p.0.1 p.0.2 h)

-- Once `acquire` grants the lease at `start`, no history of calls within its 15 seconds that
-- neither takes it over nor revokes it keeps the writer out: with the granted owner and token,
-- `require` succeeds at every time before the 15 seconds are over.
pub acquire-run-require :
    (l m : Lease) (owner fresh : String) (takeover : Bool) (start now : ℕ) (cs : List (ℕ × Call))
    → acquire l owner takeover start fresh ≡ ok m
    → All (λ c. IsPolite c.1 × (start ≤ c.0) × (c.0 < start + lifetime)) cs
    → now < start + lifetime
    → require (run m cs) owner fresh now ≡ ok tt
acquire-run-require l m owner fresh takeover start now cs e p h =
    accepted (run-Holds owner fresh start m cs p granted)
  where
    granted : Holds owner fresh (start + lifetime) m
    granted = unfold acquire in ground arith

    accepted :
        Holds owner fresh (start + lifetime) (run m cs) → require (run m cs) owner fresh now ≡ ok tt
    accepted k =
        unfold require in
        ground (arith, eq_iff owner (run m cs).owner, eq_iff fresh (run m cs).token)

-- No call of the history is given the token `token`.
abbrev pub Avoids : String → Call → Type 0
Avoids token (acquires owner takeover fresh) = fresh ≢ token
Avoids token (renews owner t) = Unit
Avoids token revokes = Unit

step-Avoids :
    (token : String) (now : ℕ) (l : Lease) (c : Call)
    → token ≢ ""
    → Avoids token c
    → l.token ≢ token
    → (step l (now, c)).token ≢ token
unfolding step acquire renew require revoke
step-Avoids token now l (acquires o b fresh) e a h = ground arith
step-Avoids token now l (renews o t) e a h = ground arith
step-Avoids token now l revokes e a h = λ k. e (ground arith)

run-Avoids :
    (token : String) (l : Lease) (cs : List (ℕ × Call))
    → token ≢ ""
    → All (λ c. Avoids token c.1) cs
    → l.token ≢ token
    → (run l cs).token ≢ token
unfolding run
run-Avoids token l [] e a h = h
run-Avoids token l (c ∷ cs) e a h =
    run-Avoids token (step l c) cs e a.1 (step-Avoids token c.0 l c.1 e a.0 h)

-- A writer whose lease was granted anew under another token is refused from then on: whatever is
-- called later, at whatever times, `require` with the old nonempty token fails, as long as no
-- later `acquire` draws that very token.
pub acquire-run-displaced :
    (l m : Lease) (owner fresh token : String) (takeover : Bool) (start : ℕ) (cs : List (ℕ × Call))
    (who : String) (now : ℕ)
    → acquire l owner takeover start fresh ≡ ok m
    → token ≢ ""
    → fresh ≢ token
    → All (λ c. Avoids token c.1) cs
    → require (run m cs) who token now ≡ err writer_lease_expired
acquire-run-displaced l m owner fresh token takeover start cs who now e n f a =
    refused (run-Avoids token m cs n a granted)
  where
    granted : m.token ≢ token
    granted = unfold acquire in ground arith

    refused : (run m cs).token ≢ token → require (run m cs) who token now ≡ err writer_lease_expired
    refused k = unfold require in ground (arith, eq_iff token (run m cs).token)
