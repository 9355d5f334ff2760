-- ===== src/Sources/Honoured.antt =====
-- The commands that the sources acknowledged, told apart from the ones that they repeated, and what
-- the sources remember of them.
use Prim.Native.String.{String}
use text.Mathlib.Text.{◌==◌}
use text.Mathlib.TextEquality.{eq_iff}
use mathlib.Core.List.{Memᴰ}
use graphlab.Prelude.{
  ap, ◌≤◌, ◌≡◌, refl, sym, ◌∙◌, arith, Bool, true, false, length, List, [], ◌∷◌, Option, none, some,
  ok, err, Bool-cases, inl, inr, if◌then◌else◌,
}
use graphlab.Runtime.Source.Requests.{Members, json_string, other, same_members, field}
use graphlab.Runtime.Source.Store.{lookup}
use graphlab.Sources.{Failure, Sources, apply}

abbrev pub names : String → Option String → Bool
names s none = false
names s (some t) = t == s

-- Whether the first command of the list for a source, the latest, pauses it.
abbrev pub last_paused : String → List Members → Bool
last_paused source [] = false
last_paused source (p ∷ ps) =
    if names source (field p "source")
    then names "pause" (field p "action")
    else last_paused source ps

-- The commands that were acknowledged when none with their members had been before: the latest
-- first, `done` before the commands and `all` behind them.
pub data Honoured : Sources → (done commands all : List Members) → Type 0 where
  finished : (s : Sources) (done : List Members) → Honoured s done [] done
  refused :
      (s : Sources) (done : List Members) (p : Members) (ps all : List Members) (e : Failure)
      → (apply s p).1 ≡ err e
      → Honoured (apply s p).0 done ps all
      → Honoured s done (p ∷ ps) all
  repeated :
      (s : Sources) (done : List Members) (p : Members) (ps all : List Members) (out : Members)
      → (apply s p).1 ≡ ok out
      → Memᴰ p done
      → Honoured (apply s p).0 done ps all
      → Honoured s done (p ∷ ps) all
  counted :
      (s : Sources) (done : List Members) (p : Members) (ps all : List Members) (out : Members)
      → (apply s p).1 ≡ ok out
      → ¬ Memᴰ p done
      → Honoured (apply s p).0 (p ∷ done) ps all
      → Honoured s done (p ∷ ps) all

-- The switches agree with the commands, of which there are at most 256, all of them kept.
pub record Faithful (s : Sources) (done : List Members) : Type 0 where
  pub alpha : s.alpha_paused ≡ last_paused "alpha" done
  pub beta : s.beta_paused ≡ last_paused "beta" done
  pub few : length done ≤ 256
  pub kept : length s.commands ≡ length done

abbrev pub requests : List (String × Members) → List Members
requests [] = []
requests (c ∷ cs) = c.1 ∷ requests cs

-- Each command is stored under its request id.
abbrev pub Keyed : List (String × Members) → Type 0
Keyed [] = Unit
Keyed (c ∷ cs) = (field c.1 "requestId" ≡ some c.0) × Keyed cs

same_members-eq : (p q : Members) → same_members p q ≡ true → p ≡ q
same_members-eq [] [] h = refl
same_members-eq [] (n ∷ q) h = cc h
same_members-eq (m ∷ p) [] h = cc h
same_members-eq ((m, json_string v) ∷ p) ((n, json_string w) ∷ q) h =
    let e : m ≡ n = (eq_iff m n).0 (ground (arith, h)) in
    let f : v ≡ w = (eq_iff v w).0 (ground (arith, h)) in
    let rest = same_members-eq p q (ground (arith, h)) in rw (e, f, rest) refl
same_members-eq ((m, other) ∷ p) ((n, other) ∷ q) h =
    let e : m ≡ n = (eq_iff m n).0 (ground (arith, h)) in
    let rest = same_members-eq p q (ground (arith, h)) in rw (e, rest) refl
same_members-eq ((m, other) ∷ p) ((n, json_string w) ∷ q) h = absurd (ground (arith, h))
same_members-eq ((m, json_string v) ∷ p) ((n, other) ∷ q) h = absurd (ground (arith, h))

-- What is stored under some name with the same members is among the requests.
pub lookup-mem :
    (cs : List (String × Members)) (id : String) (old p : Members)
    → lookup cs id ≡ some old
    → same_members old p ≡ true
    → Memᴰ p (requests cs)
lookup-mem [] id old p h m = absurd (cc h)
lookup-mem (c ∷ cs) id old p h m = elim (Bool-cases (c.0 == id)) [
  | inl e ↦
      let s : some c.1 ≡ some old = rw e at h in
      let t : c.1 ≡ old = cc s in Memᴰ.head (sym (t ∙ same_members-eq old p m))
  | inr e ↦ let l : lookup cs id ≡ some old = rw e at h in Memᴰ.tail (lookup-mem cs id old p l m)
]

-- A command whose name is not stored is not among the requests.
pub lookup-not_mem :
    (cs : List (String × Members)) (id : String) (p : Members)
    → Keyed cs
    → field p "requestId" ≡ some id
    → lookup cs id ≡ none
    → ¬ Memᴰ p (requests cs)
lookup-not_mem [] id p k f h m = elim m [ ]
lookup-not_mem (c ∷ cs) id p k f h (Memᴰ.head q) =
    let s : some c.0 ≡ some id = sym k.0 ∙ ap (λ p. field p "requestId") (sym q) ∙ f in
    let e : (c.0 == id) ≡ true = (eq_iff c.0 id).1 (cc s) in absurd (cc (rw e at h))
lookup-not_mem (c ∷ cs) id p k f h (Memᴰ.tail m) = elim (Bool-cases (c.0 == id)) [
  | inl e ↦ absurd (cc (rw e at h))
  | inr e ↦ let l : lookup cs id ≡ none = rw e at h in lookup-not_mem cs id p k.1 f l m
]
