-- ===== src/Prelude/Actions.antt =====
-- Errors, panics and effects. A call of a service answers a `Reply`; a function of the operator that
-- changes a world `W` is an `Action W`, which returns a value, an error or panics.
use Prim.Native.String.{String}
use mathlib.Core.Bool.{Bool, true, false}
use mathlib.Core.Path.{◌≡◌, refl, ap}
use mathlib.Core.List.{List, ◌∷◌}

-- `errors.IsNotFound` and `errors.IsConflict` tell the first two; `wrapped` is `fmt.Errorf("…%w")`.
pub data Error : Type 0 where
  not_found conflict : Error
  failed : String → Error
  wrapped : String → Error → Error

abbrev pub is_not_found : Error → Bool
is_not_found not_found = true
is_not_found _ = false

pub data Reply (A : Type 0) : Type 0 where
  done : A → Reply A
  fail : Error → Reply A

pub data Outcome (A : Type 0) : Type 0 where
  ok : A → Outcome A
  err : Error → Outcome A
  panicked : Outcome A

abbrev pub Action : Type 0 → Type 0 → Type 0
Action W A = W → Outcome A × W

infixl 5 ◌>>=◌ ◌>>◌
abbrev pub ◌>>=◌ : {W A B : Type 0} → Action W A → (A → Action W B) → Action W B
◌>>=◌ m f w =
    let (r, w') = m w in elim r [ ok a ↦ f a w' | err e ↦ (err e, w') | panicked ↦ (panicked, w') ]

abbrev pub ◌>>◌ : {W B : Type 0} → Action W (Unit {0}) → Action W B → Action W B
m >> k = m >>= λ _. k

abbrev pub pure : {W A : Type 0} → A → Action W A
pure a w = (ok a, w)

abbrev pub raise : {W A : Type 0} → Error → Action W A
raise e w = (err e, w)

abbrev pub panic : {W A : Type 0} → Action W A
panic w = (panicked, w)

-- `if err != nil { return …, wrap(err) }`
abbrev pub check : {W A : Type 0} → (Error → Error) → Reply A → Action W A
check wrap (done a) w = (ok a, w)
check wrap (fail e) w = (err (wrap e), w)

abbrev pub same_error : Error → Error
same_error e = e

module _ {W A B : Type 0} where
  bind_outcome-eq-ok :
      (o : Outcome A) (mid : W) (f : A → Action W B) {b : B} {w' : W}
      → ((λ (w : W). (o, mid)) >>= f) mid ≡ (ok b, w')
      → (a : A) × (o ≡ ok a) × (f a mid ≡ (ok b, w'))
  bind_outcome-eq-ok (ok a) mid f h = (a, refl, h)
  bind_outcome-eq-ok (err e) mid f h = absurd (cc)
  bind_outcome-eq-ok panicked mid f h = absurd (cc)

  -- A sequence goes on where its first part ended well.
  pub >>=-ok :
      (m : Action W A) (f : A → Action W B) (w : W) {a : A} {w' : W}
      → m w ≡ (ok a, w')
      → (m >>= f) w ≡ f a w'
  >>=-ok m f w {a} {w'} h = ap (λ (x : Outcome A × W). ((λ (u : W). x) >>= f) w) h

  -- A sequence that ends well has a first part that ended well.
  pub >>=-eq-ok :
      (m : Action W A) (f : A → Action W B) (w : W) {b : B} {w' : W}
      → (m >>= f) w ≡ (ok b, w')
      → (a : A) × ((m w).0 ≡ ok a) × (f a (m w).1 ≡ (ok b, w'))
  >>=-eq-ok m f w h = bind_outcome-eq-ok (m w).0 (m w).1 f h

-- A world that is the list of the calls made so far, newest first. The service's answer may depend
-- on all of them, so it may change its state between two calls in any way.
abbrev pub ask : {C A : Type 0} → (List C → Reply A) → C → Action (List C) (Reply A)
ask answer c h = (ok (answer h), c ∷ h)

-- A note of an effect that answers nothing, such as a recorded event.
abbrev pub emit : {C : Type 0} → C → Action (List C) (Unit {0})
emit c h = (ok tt, c ∷ h)

-- The history `h'` is `h` with some calls on top, each of which has the property.
pub data Since {C : Type 0} (P : C → Type 0) (h : List C) : List C → Type 0 where
  same : Since P h h
  more : {h' : List C} (c : C) → P c → Since P h h' → Since P h (c ∷ h')

module _ {C : Type 0} (P : C → Type 0) where
  pub Since-trans : {h h' h'' : List C} → Since P h h' → Since P h' h'' → Since P h h''
  Since-trans s same = s
  Since-trans s (more c p t) = more c p (Since-trans s t)

  -- Every call that an action makes has the property.
  abbrev pub Only : {A : Type 0} → Action (List C) A → Type 0
  Only m = (h : List C) → Since P h (m h).1

  bind_outcome-Only :
      {A B : Type 0} (o : Outcome A) (mid : List C) (f : A → Action (List C) B)
      → ((a : A) → Only (f a))
      → Since P mid (((λ (h : List C). (o, mid)) >>= f) mid).1
  bind_outcome-Only (ok a) mid f k = k a mid
  bind_outcome-Only (err e) mid f k = same
  bind_outcome-Only panicked mid f k = same

  pub >>=-Only :
      {A B : Type 0} (m : Action (List C) A) (f : A → Action (List C) B)
      → Only m
      → ((a : A) → Only (f a))
      → Only (m >>= f)
  >>=-Only m f s k h = Since-trans (s h) (bind_outcome-Only (m h).0 (m h).1 f k)

  pub check-Only : {A : Type 0} (wrap : Error → Error) (r : Reply A) → Only (check wrap r)
  check-Only wrap (done a) h = same
  check-Only wrap (fail e) h = same

  pub ask-Only : {A : Type 0} (answer : List C → Reply A) (c : C) → P c → Only (ask answer c)
  ask-Only answer c p h = more c p same

  pub emit-Only : (c : C) → P c → Only (emit c)
  emit-Only c p h = more c p same

module _ {C : Type 0} {P P' : C → Type 0} (weaken : (c : C) → P c → P' c) where
  Since-map : {h h' : List C} → Since P h h' → Since P' h h'
  Since-map same = same
  Since-map (more c p s) = more c (weaken c p) (Since-map s)

  -- The calls of an action have any weaker property.
  pub Only-map : {A : Type 0} (m : Action (List C) A) → Only P m → Only P' m
  Only-map m s h = Since-map (s h)
