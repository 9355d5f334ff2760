-- ===== src/Sources/Switches.antt =====
-- The switches of the sources, over any commands.
use Prim.Native.String.{String}
use text.Mathlib.Text.{◌==◌}
use text.Mathlib.TextEquality.{eq_iff}
use graphlab.Prelude.{
  suc, ◌≡◌, refl, ap, sym, subst, ◌∙◌, arith, Bool, true, false, ◌&&◌, ◌||◌, ltb, ◌==◌ as nat_eq,
  length, List, [], ◌∷◌, Option, none, some, Result, ok, err, guard, ◌>>=◌, ◌>>◌, Bool-cases, inl,
  inr, if◌then◌else◌,
}
use graphlab.Runtime.Source.Requests.{Members, field, is_request_id}
use graphlab.Runtime.Source.Store.{lookup}
use graphlab.Sources.{
  with_outcome, Failure, Sources, Checked, fresh, version, as_string, checked, accepted, apply,
  apply_all,
}
use graphlab.Sources.Ledger.{Applied, refused, repeated, entered_now, apply-Applied}
use mathlib.Core.List.{Memᴰ}
use graphlab.Sources.Honoured.{
  last_paused, Faithful, requests, Keyed, Honoured, lookup-mem, lookup-not_mem,
}

-- What passed the checks: the members that name the command and decide on the switches.
record Read (p : Members) (c : Checked) : Type 0 where
  action : String
  has_id : field p "requestId" ≡ some c.id
  has_source : field p "source" ≡ some c.source
  has_action : field p "action" ≡ some action
  pauses : (action == "pause") ≡ c.is_pause
  known : (c.source == "alpha" || c.source == "beta") ≡ true

-- The last checks, on the members as they were found.
decided : String → String → String → String → String → Result Failure Checked
decided epoch id of_epoch source action = do
  guard (is_request_id id) Failure.source_request_id_invalid
  guard (of_epoch == epoch) Failure.source_epoch_changed
  guard ((source == "alpha" || source == "beta") && (action == "pause" || action == "resume"))
      Failure.source_control_unsupported
  ok record { id = id; source = source; is_pause = action == "pause" }

decided-ok :
    (epoch id of_epoch source action : String) (c : Checked)
    → decided epoch id of_epoch source action ≡ ok c
    → (c ≡ record { id = id; source = source; is_pause = action == "pause" })
      × ((source == "alpha" || source == "beta") ≡ true)
unfolding decided
decided-ok epoch id of_epoch source action c h = elim (Bool-cases (is_request_id id)) [
  | inr e ↦ absurd (cc (rw e at h))
  | inl e1 ↦ elim (Bool-cases (of_epoch == epoch)) [
    | inr e ↦ absurd (cc (rw (e1, e) at h))
    | inl e2 ↦
        elim (Bool-cases
          ((source == "alpha" || source == "beta") && (action == "pause" || action == "resume"))) [
            | inr e ↦ absurd (cc (rw (e1, e2, e) at h))
            | inl e3 ↦ (cc (rw (e1, e2, e3) at h), ground (arith, e3))
          ]
  ]
]

checked-Read : (epoch : String) (p : Members) (c : Checked) → checked epoch p ≡ ok c → Read p c
unfolding checked decided
checked-Read epoch p c h =
    go (nat_eq (length p) 5) (version (lookup p "apiVersion")) (field p "requestId")
      (field p "epoch") (field p "source") (field p "action") refl refl refl h
  where
    go :
        (n : Bool) (v : Result Failure (Unit {0})) (i t s a : Option String)
        → field p "requestId" ≡ i
        → field p "source" ≡ s
        → field p "action" ≡ a
        → (guard n Failure.source_contract_invalid
            >> (v
                >> (as_string i >>= λ id. as_string t >>= λ of_epoch. as_string s >>= λ source.
                    as_string a >>= λ action. decided epoch id of_epoch source action)))
          ≡ ok c
        → Read p c
    go true (ok u) (some id) (some of_epoch) (some source) (some action) d e f h =
        let (q, k) = decided-ok epoch id of_epoch source action c h in
        subst (Read p) (sym q) (record {
          action = action;
          has_id = d;
          has_source = e;
          has_action = f;
          pauses = refl;
          known = k;
        })
    go true (ok u) (some id) (some of_epoch) (some source) none d e f h = absurd (cc h)
    go true (ok u) (some id) (some of_epoch) none a d e f h = absurd (cc h)
    go true (ok u) (some id) none s a d e f h = absurd (cc h)
    go true (ok u) none t s a d e f h = absurd (cc h)
    go true (err x) i t s a d e f h = absurd (cc h)
    go false v i t s a d e f h = absurd (cc h)

-- The newest command decides for its source, and for no other.
newest :
    (source : String) (p : Members) (done : List Members) (c : Checked)
    → Read p c
    → last_paused source (p ∷ done)
      ≡ (if c.source == source then c.is_pause else last_paused source done)
newest source p done c r = rw (r.has_source, r.has_action, r.pauses) refl

beta_next :
    (old : Bool) (c : Checked)
    → (c.source == "alpha" || c.source == "beta") ≡ true
    → (if c.source == "alpha" then old else c.is_pause)
      ≡ (if c.source == "beta" then c.is_pause else old)
beta_next old c h = elim (Bool-cases (c.source == "alpha")) [
  | inl e ↦
      let n : (c.source == "beta") ≡ false =
        ap (λ s. s == "beta") ((eq_iff c.source "alpha").0 e) in
      rw (e, n) refl
  | inr e ↦ let y : (c.source == "beta") ≡ true = ground (arith, h, e) in rw (e, y) refl
]

-- What the sources remember is the commands that were acknowledged for the first time.
record Remembered (s : Sources) (done : List Members) : Type 0 where
  faithful : Faithful s done
  stored : done ≡ requests s.commands
  keyed : Keyed s.commands

length-requests : (cs : List (String × Members)) → length (requests cs) ≡ length cs
length-requests [] = refl
length-requests (c ∷ cs) = ap suc (length-requests cs)

accepted-Remembered :
    (s : Sources) (done : List Members) (p : Members) (c : Checked)
    → Read p c
    → ltb (length s.commands) 256 ≡ true
    → Remembered s done
    → Remembered (accepted s p c) (p ∷ done)
accepted-Remembered s done p c r l h = record {
  faithful = record {
    alpha =
        ap (λ b. if c.source == "alpha" then c.is_pause else b) h.faithful.alpha
        ∙ sym (newest "alpha" p done c r);
    beta =
        ap (λ b. if c.source == "alpha" then b else c.is_pause) h.faithful.beta
        ∙ beta_next (last_paused "beta" done) c r.known
        ∙ sym (newest "beta" p done c r);
    few =
        let n : length done ≡ length s.commands = ap length h.stored ∙ length-requests s.commands in
        ground (arith, l, n);
    kept = ap suc h.faithful.kept;
  };
  stored = ap (λ ps. p ∷ ps) h.stored;
  keyed = (r.has_id, h.keyed);
}

-- What one command does to the ones that were honoured.
data Next (s : Sources) (done : List Members) (p : Members) (x : Sources × Result Failure Members)
    : Type 0 where
  stays_refused : (e : Failure) → x.1 ≡ err e → Remembered x.0 done → Next s done p x
  stays_repeated :
      (out : Members) → x.1 ≡ ok out → Memᴰ p done → Remembered x.0 done → Next s done p x
  grows :
      (out : Members) → x.1 ≡ ok out → ¬ Memᴰ p done → Remembered x.0 (p ∷ done) → Next s done p x

apply-Next :
    (s : Sources) (done : List Members) (p : Members)
    → Remembered s done
    → Next s done p (apply s p)
apply-Next s done p h = go (apply-Applied s p)
  where
    go : Applied s p (apply s p) → Next s done p (apply s p)
    go (refused e x) = subst (Next s done p) (sym x) (stays_refused e refl h)
    go (repeated c old a l m x) =
        let k = subst (λ ps. Memᴰ p ps) (sym h.stored) (lookup-mem s.commands c.id old p l m) in
        subst (Next s done p) (sym x) (stays_repeated (with_outcome p) refl k h)
    go (entered_now c a l m x) =
        let r = checked-Read s.epoch p c a in
        let k = lookup-not_mem s.commands c.id p h.keyed r.has_id l in
        let k' = λ (q : Memᴰ p done). k (subst (λ ps. Memᴰ p ps) h.stored q) in
        subst (Next s done p) (sym x)
          (grows (with_outcome p) refl k' (accepted-Remembered s done p c r m h))

-- What a sequence of commands leaves.
abbrev Leaves : Sources → List Members → List Members → Type 0
Leaves s done ps = (all : List Members) × Honoured s done ps all × Faithful (apply_all s ps) all

kept-Faithful : (s : Sources) (done ps : List Members) → Remembered s done → Leaves s done ps
unfolding apply_all
kept-Faithful s done [] h = (done, Honoured.finished s done, h.faithful)
kept-Faithful s done (p ∷ ps) h =
    go (apply-Next s done p h) (λ d r. kept-Faithful (apply s p).0 d ps r)
  where
    go :
        Next s done p (apply s p)
        → ((d : List Members) → Remembered (apply s p).0 d → Leaves (apply s p).0 d ps)
        → Leaves s done (p ∷ ps)
    go (stays_refused e x r) k =
        let (all, t, f) = k done r in
        (all, Honoured.refused s done p ps all e x t, unfold apply_all in f)
    go (stays_repeated out x m r) k =
        let (all, t, f) = k done r in
        (all, Honoured.repeated s done p ps all out x m t, unfold apply_all in f)
    go (grows out x m r) k =
        let (all, t, f) = k (p ∷ done) r in
        (all, Honoured.counted s done p ps all out x m t, unfold apply_all in f)

-- After any commands, each source is paused or running as the latest command for it says of those
-- that were acknowledged when none with their members had been before, running where there is none;
-- and there are at most 256 of them, all of them kept.
pub apply_all-Faithful :
    (epoch : String) (ps : List Members)
    → (all : List Members) × Honoured (fresh epoch) [] ps all
      × Faithful (apply_all (fresh epoch) ps) all
apply_all-Faithful epoch ps = kept-Faithful (fresh epoch) [] ps (record {
  faithful = record { alpha = refl; beta = refl; few = omega arith; kept = refl };
  stored = refl;
  keyed = tt;
})
