-- ===== src/Runtime/Machine.antt =====
-- Code that changes a state, may throw, and may be cut off where the process is killed: the operations
-- of cpp/runtime/engine.cpp and cpp/telemetry/engine.cpp are written in it.
use graphlab.Prelude.{◌≡◌, refl, Bool, true, false}

pub data Outcome (A : Type 0) : Type 0 where
  returns : A → Outcome A
  throws killed : Outcome A

abbrev pub Machine : Type 0 → Type 0 → Type 0
Machine W A = W → W × Outcome A

module _ {W : Type 0} where
  abbrev pub bound : {A B : Type 0} → W × Outcome A → (A → Machine W B) → W × Outcome B
  bound (w, returns a) f = f a w
  bound (w, throws) f = (w, throws)
  bound (w, killed) f = (w, killed)

  infixl 5 ◌>>=◌ ◌>>◌
  abbrev pub ◌>>=◌ : {A B : Type 0} → Machine W A → (A → Machine W B) → Machine W B
  ◌>>=◌ m f w = bound (m w) f

  abbrev pub ◌>>◌ : {B : Type 0} → Machine W (Unit {0}) → Machine W B → Machine W B
  m >> k = m >>= λ _. k

  abbrev pub pure : {A : Type 0} → A → Machine W A
  pure a w = (w, returns a)

  abbrev pub throw : {A : Type 0} → Machine W A
  throw w = (w, throws)

  abbrev pub when : Bool → Machine W (Unit {0}) → Machine W (Unit {0})
  when true m = m
  when false m = pure tt

  -- `try { … } catch (...) { handler }`
  abbrev pub handled : W × Outcome (Unit {0}) → Machine W (Unit {0}) → W × Outcome (Unit {0})
  handled (w, returns u) h = (w, returns u)
  handled (w, throws) h = h w
  handled (w, killed) h = (w, killed)

  -- `try { … } catch (...) {}`
  abbrev pub ignored : W × Outcome (Unit {0}) → W × Outcome (Unit {0})
  ignored (w, returns u) = (w, returns u)
  ignored (w, throws) = (w, returns tt)
  ignored (w, killed) = (w, killed)

  abbrev pub attempt : Machine W (Unit {0}) → Machine W (Unit {0})
  attempt m w = ignored (m w)

  -- The handler runs where the code throws.
  abbrev pub catches : Machine W (Unit {0}) → Machine W (Unit {0}) → Machine W (Unit {0})
  catches m h w = handled (m w) h

  -- Whether the code returns; what it throws is dropped.
  abbrev pub confirmed : W × Outcome (Unit {0}) → W × Outcome Bool
  confirmed (w, returns u) = (w, returns true)
  confirmed (w, throws) = (w, returns false)
  confirmed (w, killed) = (w, killed)

  abbrev pub tried : Machine W (Unit {0}) → Machine W Bool
  tried m w = confirmed (m w)

  -- The code keeps `I` in any case, and leads from `P` to `Q` where it returns.
  abbrev pub Keeping : {A : Type 0} → (I P Q : W → Type 0) → Machine W A → Type 0
  Keeping {A} I P Q m =
      (w : W) → I w → P w → I (m w).0 × ((a : A) → (m w).1 ≡ returns a → Q (m w).0)

  pub then-Keeping :
      {A B : Type 0} (I P Q R : W → Type 0) (m : Machine W A) (f : A → Machine W B)
      → Keeping I P Q m
      → ((a : A) → Keeping I Q R (f a))
      → Keeping I P R (m >>= f)
  then-Keeping {A} {B} I P Q R m f k l w h p = go (m w) (k w h p)
    where
      go :
          (x : W × Outcome A)
          → I x.0 × ((a : A) → x.1 ≡ returns a → Q x.0)
          → I (bound x f).0 × ((b : B) → (bound x f).1 ≡ returns b → R (bound x f).0)
      go (v, returns a) z = l a v z.0 (z.1 a refl)
      go (v, throws) z = (z.0, λ b c. cc)
      go (v, killed) z = (z.0, λ b c. cc)

  -- Where nothing but `I` is known of a throw, the handler may rely on `I` only.
  pub catches-Keeping :
      (I P Q : W → Type 0) (m h : Machine W (Unit {0}))
      → Keeping I P Q m
      → Keeping I (λ w. Unit) Q h
      → Keeping I P Q (catches m h)
  catches-Keeping I P Q m h k l w i p = go (m w) (k w i p)
    where
      go :
          (x : W × Outcome (Unit {0}))
          → I x.0 × ((b : Unit {0}) → x.1 ≡ returns b → Q x.0)
          → I (handled x h).0 × ((b : Unit {0}) → (handled x h).1 ≡ returns b → Q (handled x h).0)
      go (v, returns a) z = z
      go (v, throws) z = l v z.0 tt
      go (v, killed) z = (z.0, λ b c. cc)

  pub tried-Keeping :
      (I Q : W → Type 0) (m : Machine W (Unit {0}))
      → ((w : W) → I w → Q w → I (m w).0 × Q (m w).0)
      → Keeping I Q Q (tried m)
  tried-Keeping I Q m k w i p = go (m w) (k w i p)
    where
      go :
          (x : W × Outcome (Unit {0}))
          → I x.0 × Q x.0
          → I (confirmed x).0 × ((b : Bool) → (confirmed x).1 ≡ returns b → Q (confirmed x).0)
      go (v, returns a) z = (z.0, λ b c. z.1)
      go (v, throws) z = (z.0, λ b c. z.1)
      go (v, killed) z = (z.0, λ b c. z.1)
