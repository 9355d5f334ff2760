-- ===== src/Topology/Json.antt =====
-- Values of the JSON library, and the readers of packages/lab-support/cpp/contracts.cpp: `object`, `fields`,
-- `need`, `str`, `getstr`, `boolean`, `number`, `array` and `features`. Of an error its code is kept.
use Prim.Native.String.{String}
use text.Mathlib.Text.{◌==◌}
use graphlab.Prelude.{
  ℕ, ◌≡◌, refl, Bool, true, false, ◌&&◌, ◌||◌, List, [], ◌∷◌, Option, none, some, leb, Result, ok,
  err,
}
use graphlab.Runtime.Source.Store.{lookup}

-- A number that is no integer or below zero is `other_number`. The members of an object stand in the
-- order of their names, each name once.
mutual
  pub data Json : Type 0 where
    null other_number : Json
    flag : Bool → Json
    integer : ℕ → Json
    string : String → Json
    sequence : Items → Json
    mapping : Members → Json

  pub data Items : Type 0 where
    end : Items
    item : Json → Items → Items

  pub data Members : Type 0 where
    done : Members
    member : String → Json → Members → Members

abbrev pub elements : Items → List Json
elements end = []
elements (item v vs) = v ∷ elements vs

abbrev pub entries : Members → List (String × Json)
entries done = []
entries (member k v ms) = (k, v) ∷ entries ms

pub data Code : Type 0 where
  validation_error unsupported_version unsupported_feature : Code
  unsupported_backend resource_limit integrity_error : Code

abbrev pub Check : Type 0 → Type 0
Check A = Result Code A

infixl 5 ◌>>=◌ ◌>>◌
unfoldable pub ◌>>=◌ : {A B : Type 0} → Check A → (A → Check B) → Check B
ok a >>= f = f a
err e >>= f = err e

abbrev pub ◌>>◌ : {B : Type 0} → Check (Unit {0}) → Check B → Check B
m >> k = m >>= λ _. k

-- What holds, or `fail`.
unfoldable pub expect : Bool → Code → Check (Unit {0})
expect true e = ok tt
expect false e = err e

abbrev pub require : Bool → Check (Unit {0})
require b = expect b validation_error

pub bind-ok :
    {A B : Type 0} (m : Check A) (f : A → Check B) (b : B)
    → (m >>= f) ≡ ok b
    → (a : A) × (m ≡ ok a) × (f a ≡ ok b)
unfolding ◌>>=◌
bind-ok (ok a) f b h = (a, refl, h)
bind-ok (err e) f b h = absurd (cc h)

pub expect-ok : (b : Bool) (e : Code) (u : Unit {0}) → expect b e ≡ ok u → b ≡ true
unfolding expect
expect-ok true e u h = refl
expect-ok false e u h = absurd (cc h)

pub require-ok : (b : Bool) (u : Unit {0}) → require b ≡ ok u → b ≡ true
require-ok b u h = expect-ok b validation_error u h

pub ok_inj : {A : Type 0} (a b : A) → ◌≡◌ {A = Check A} (ok a) (ok b) → a ≡ b
ok_inj a b h = cc h

-- `contains` and `at`
abbrev pub get : Json → String → Option Json
get (mapping ms) k = lookup (entries ms) k
get _ k = none

abbrev pub contains : Json → String → Bool
contains v k = elim (get v k) [ none ↦ false | some x ↦ true ]

abbrev pub object : Json → Check (List (String × Json))
object (mapping ms) = ok (entries ms)
object _ = err validation_error

abbrev pub array : Json → Check (List Json)
array (sequence vs) = ok (elements vs)
array _ = err validation_error

abbrev pub str : Json → Check String
str (string s) = ok s
str _ = err validation_error

abbrev pub boolean : Json → Check Bool
boolean (flag b) = ok b
boolean _ = err validation_error

abbrev pub within : ℕ → ℕ → ℕ → Bool
within lo hi n = leb lo n && leb n hi

unfoldable pub number : Json → ℕ → ℕ → Check ℕ
unfolding ◌>>=◌ expect
number (integer n) lo hi = require (within lo hi n) >> ok n
number _ lo hi = err validation_error

abbrev required : Option Json → Check Json
required none = err validation_error
required (some v) = ok v

unfoldable pub need : Json → String → Check Json
need v k = required (get v k)

unfoldable pub getstr : Json → String → Check String
unfolding need ◌>>=◌
getstr v k = need v k >>= str

abbrev pub mem : String → List String → Bool
mem k [] = false
mem k (n ∷ ns) = k == n || mem k ns

abbrev only : List String → List (String × Json) → Bool
only ns [] = true
only ns (m ∷ ms) = mem m.0 ns && only ns ms

unfoldable pub fields : Json → List String → Check (Unit {0})
unfolding ◌>>=◌ expect
fields v ns = object v >>= λ ms. require (only ns ms)

abbrev is_empty {ℓ} : {A : Type ℓ} → List A → Bool
is_empty [] = true
is_empty (x ∷ xs) = false

abbrev no_features : Option Json → Check (Unit {0})
no_features none = ok tt
no_features (some v) = array v >>= λ vs. expect (is_empty vs) unsupported_feature

unfoldable pub features : Json → Check (Unit {0})
unfolding ◌>>=◌ expect
features v = no_features (get v "requiredFeatures")
