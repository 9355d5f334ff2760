-- ===== src/Runtime/Execution/Steps.antt =====
-- The parts of a job that change the list of resources: preparation and removal.
use Prim.Native.String.{String}
use text.Mathlib.Text.{◌==◌}
use text.Mathlib.TextEquality.{eq_iff}
use graphlab.Prelude.{
  ℕ, zero, suc, ◌≡◌, refl, ap, subst, sym, ◌∙◌, Bool, true, false, ◌||◌, List, [], ◌∷◌, ◌++◌,
  Option, none, some, if◌then◌else◌, arith, Bool-cases, inl, inr, get_elem?, drop, length,
}
use graphlab.Runtime.Execution.{intended, prepared_last, prepared_back, prepare_resources}
use graphlab.Runtime.Execution.Cleanup.{
  is_removed, modify_at, removed_at, remove_resource, remove_resources, close_captures, closing,
  clear_faults, cleared, stop_sessions, cleanup,
}
use graphlab.Runtime.Execution.State.{
  Resource, intent, removed, prepare, remove, capture_stop, fault_remove, stop_session, Fault,
  World, M, modify, get_run, ask, call, save, is_cancelled,
}
use graphlab.Runtime.Machine.{◌>>◌, pure}
use graphlab.Runtime.Execution.Intents.{
  may_exist, listed, Keeps, Any, On, Steady, then-Keeps, then-Steady, when-Steady, modify-Known,
  modify-Steady, get_run-Steady, save-Keeps, save-Steady, is_cancelled-Steady, call-Keeps,
  ask-Steady, call-Steady, Lists, prepare-Keeps, Gone,
}

listed-append :
    (n : String) (xs ys : List Resource) → listed n (xs ++ ys) ≡ (listed n xs || listed n ys)
listed-append n [] ys = refl
listed-append n (x ∷ xs) ys = ground (arith, listed-append n xs ys)

listed-prepared_last :
    (n : String) (rs : List Resource) → listed n rs ≡ true → listed n (prepared_last rs) ≡ true
listed-prepared_last n [] h = h
listed-prepared_last n (r ∷ []) h = ground (arith, h)
listed-prepared_last n (r ∷ s ∷ rs) h = ground (arith, h, listed-prepared_last n (s ∷ rs))

intended-Keeps :
    (k : String) → Keeps Any (λ w. listed k w.run.resources ≡ true) (modify (intended k))
intended-Keeps k w h p =
    let new : Resource = record { key = k; state = intent } in
    let l = listed-append k w.run.resources (new ∷ []) in
    (
      modify-Known (intended k) w
          (λ n e. listed-append n w.run.resources (new ∷ []) ∙ ground (arith, e)) h,
      λ a e. l ∙ ground (arith, eq_iff k k),
    )

prepared_back-Keeps : Keeps Any Any (modify prepared_back)
prepared_back-Keeps w h p =
    (modify-Known prepared_back w (λ n e. listed-prepared_last n w.run.resources e) h, λ a e. tt)

abbrev Unset : List Resource → Type 0
Unset rs = Unit

pub prepare_resources-Keeps :
    (c : Bool) (keys : List String) → Keeps Any Any (prepare_resources c keys)
unfolding prepare_resources
prepare_resources-Keeps true keys = λ w h p. (h, λ a e. tt)
prepare_resources-Keeps false [] = λ w h p. (h, λ a e. tt)
prepare_resources-Keeps false (key ∷ keys) =
    then-Keeps Any (λ w. listed key w.run.resources ≡ true) Any (modify (intended key)) _
      (intended-Keeps key)
      λ _.
        then-Keeps _ (Lists key) Any save _ (save-Keeps (λ r. listed key r.resources ≡ true)) λ _.
          then-Keeps (Lists key) Any Any (call (prepare key)) _ (prepare-Keeps key) λ _.
            then-Keeps Any Any Any (modify prepared_back) _ prepared_back-Keeps λ _.
              then-Keeps Any Any Any save _ (save-Steady Unset) λ _.
                then-Keeps Any Any Any is_cancelled _ (is_cancelled-Steady Unset)
                  λ c. prepare_resources-Keeps c keys

pub close_captures-Steady : Steady close_captures
unfolding close_captures
close_captures-Steady = then-Steady get_run _ get_run-Steady λ run. when-Steady run.is_recorded _ (
    then-Steady (ask capture_stop) _ (ask-Steady capture_stop (λ t b n. refl)) λ a.
      then-Steady (modify (closing a)) _ (modify-Steady (closing a) (λ r. refl)) λ _. save-Steady)

if-Steady : {A : Type 0} (c : Bool) (m n : M A) → Steady m → Steady n → Steady (if c then m else n)
if-Steady true m n k l = k
if-Steady false m n k l = l

pub clear_faults-Steady : (done fs : List Fault) → Steady (clear_faults done fs)
unfolding clear_faults
clear_faults-Steady done [] = λ R w h p. (h, λ a e. p)
clear_faults-Steady done (f ∷ rest) =
    if-Steady f.is_live _ _
      (then-Steady (call (fault_remove f.id)) _ (call-Steady (fault_remove f.id) (λ t b n. refl))
        λ _.
          then-Steady (modify (cleared done f rest)) _
            (modify-Steady (cleared done f rest) (λ r. refl))
            λ _.
              then-Steady save _ save-Steady
                λ _. clear_faults-Steady (done ++ record f { is_live = false } ∷ []) rest)
      (clear_faults-Steady (done ++ f ∷ []) rest)

pub stop_sessions-Steady : (ss : List String) → Steady (stop_sessions ss)
unfolding stop_sessions
stop_sessions-Steady [] = λ R w h p. (h, λ a e. p)
stop_sessions-Steady (s ∷ ss) =
    then-Steady (call (stop_session s)) _ (call-Steady (stop_session s) (λ t b n. refl))
      λ _. stop_sessions-Steady ss

-- The entries are marked as removed, from an index on.
abbrev pub AllRemoved : List Resource → Type 0
AllRemoved [] = Unit
AllRemoved (r ∷ rs) = (is_removed r ≡ true) × AllRemoved rs

drop_all : (rs : List Resource) → drop (length rs) rs ≡ []
drop_all [] = refl
drop_all (r ∷ rs) = drop_all rs

abbrev gone : Resource → Resource
gone x = record x { state = removed }

listed-modify_at :
    (i : ℕ) (rs : List Resource) (r : Resource) (n : String)
    → get_elem? rs i ≡ some r
    → (r.key == n) ≡ false
    → listed n (modify_at i gone rs) ≡ listed n rs
listed-modify_at i [] r n g s = refl
listed-modify_at zero (x ∷ rs) r n g s = ground (arith, g, s)
listed-modify_at (suc i) (x ∷ rs) r n g s = ground (arith, listed-modify_at i rs r n g s)

AllRemoved-modify_at :
    (i : ℕ) (rs : List Resource)
    → AllRemoved (drop (suc i) rs)
    → AllRemoved (drop i (modify_at i gone rs))
AllRemoved-modify_at zero [] h = tt
AllRemoved-modify_at (suc i) [] h = tt
AllRemoved-modify_at zero (x ∷ rs) h = (refl, h)
AllRemoved-modify_at (suc i) (x ∷ rs) h = AllRemoved-modify_at i rs h

AllRemoved-drop :
    (i : ℕ) (rs : List Resource) (o : Option Resource)
    → get_elem? rs i ≡ o
    → ((r : Resource) → o ≡ some r → is_removed r ≡ true)
    → AllRemoved (drop (suc i) rs)
    → AllRemoved (drop i rs)
AllRemoved-drop zero [] o g s h = tt
AllRemoved-drop (suc i) [] o g s h = tt
AllRemoved-drop zero (x ∷ rs) o g s h = (s x (sym g), h)
AllRemoved-drop (suc i) (x ∷ rs) o g s h = AllRemoved-drop i rs o g s h

-- From an index on, all resources in memory are marked as removed.
abbrev pub From : ℕ → List Resource → Type 0
From i rs = AllRemoved (drop i rs)

abbrev At : ℕ → Option Resource → World → Type 0
At i o w = From (suc i) w.run.resources × (get_elem? w.run.resources i ≡ o)

-- The entry that is about to be marked is that of a resource which does not exist.
removed_at-Keeps :
    (i : ℕ) (r : Resource)
    → Keeps (λ w. At i (some r) w × Gone r.key w) (On (From i)) (modify (removed_at i))
removed_at-Keeps i r w h p = (
  record {
    memory = λ n e. elim (Bool-cases (r.key == n)) [
      | inl s ↦
          let q : may_exist w.trace n ≡ false =
            ap (may_exist w.trace) (sym ((eq_iff r.key n).0 s)) ∙ p.1 in
          absurd (cc (q, e))
      | inr s ↦ listed-modify_at i w.run.resources r n p.0.1 s ∙ h.memory n e
    ];
    journal = h.journal;
  },
  λ a e. AllRemoved-modify_at i w.run.resources p.0.0,
)

remove_call-Keeps :
    (i : ℕ) (r : Resource)
    → Keeps (At i (some r)) (λ w. At i (some r) w × Gone r.key w) (call (remove r.key))
remove_call-Keeps i r =
    call-Keeps (At i (some r)) (λ w. At i (some r) w × Gone r.key w) (remove r.key)
      (λ w b n h p e.
        let f : may_exist w.trace n ≡ true = ground (arith, e) in (h.memory n f, h.journal n f))
      (λ w x p. (p, ground (arith, eq_iff r.key r.key)))

removal-Keeps :
    (i : ℕ) (r : Resource) (c : Bool)
    → is_removed r ≡ c
    → Keeps
        (At i (some r))
        (On (From i))
        (if c then pure tt else (do call (remove r.key); modify (removed_at i); save))
removal-Keeps i r true c = λ w h p. (
  h,
  λ a e.
      AllRemoved-drop i w.run.resources (some r) p.1
        (λ x q. let same : r ≡ x = cc q in ap is_removed (sym same) ∙ c) p.0,
)
removal-Keeps i r false c =
    then-Keeps (At i (some r)) (λ w. At i (some r) w × Gone r.key w) (On (From i))
      (call (remove r.key)) _ (remove_call-Keeps i r)
      λ _.
        then-Keeps (λ w. At i (some r) w × Gone r.key w) (On (From i)) (On (From i))
          (modify (removed_at i)) _ (removed_at-Keeps i r) λ _. save-Steady (From i)

remove_resource-Keeps :
    (i : ℕ) (o : Option Resource) → Keeps (At i o) (On (From i)) (remove_resource i o)
unfolding remove_resource
remove_resource-Keeps i none =
    λ w h p. (h, λ a e. AllRemoved-drop i w.run.resources none p.1 (λ x q. cc) p.0)
remove_resource-Keeps i (some r) = removal-Keeps i r (is_removed r) refl

pub remove_resources-Keeps : (i : ℕ) → Keeps (On (From i)) (On (From 0)) (remove_resources i)
unfolding remove_resources
remove_resources-Keeps zero = λ w h p. (h, λ a e. p)
remove_resources-Keeps (suc i) = λ w h p.
    let o = get_elem? w.run.resources i in
    then-Keeps (At i o) (On (From i)) (On (From 0)) (remove_resource i o) (λ _. remove_resources i)
      (remove_resource-Keeps i o) (λ _. remove_resources-Keeps i) w h (p, refl)

pub cleanup-Keeps : Keeps Any (On (From 0)) cleanup
unfolding cleanup
cleanup-Keeps = λ v h p.
    then-Keeps Any Any (On (From 0)) (clear_faults [] v.run.faults) _
      (clear_faults-Steady [] v.run.faults Unset)
      (λ _.
        then-Keeps Any Any (On (From 0)) close_captures _ (close_captures-Steady Unset) λ _ w h p.
          then-Keeps (On (From (length w.run.resources))) (On (From (length w.run.resources)))
            (On (From 0)) (stop_sessions w.run.sessions) _
            (stop_sessions-Steady w.run.sessions (From (length w.run.resources)))
            (λ _. remove_resources-Keeps (length w.run.resources)) w h
            (subst AllRemoved (sym (drop_all w.run.resources)) tt))
      v h p
