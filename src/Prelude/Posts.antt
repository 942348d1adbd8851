-- ===== src/Prelude/Posts.antt =====
-- What holds of a history after an action: `Q` of the value and the history where the action returns
-- a value, and `J` of the history where it returns an error or panics.
use mathlib.Core.Path.{◌≡◌, refl}
use mathlib.Core.Logic.{◌⊎◌, inl, inr}
use tensor_fusion_operator.Prelude.Actions.{
  Error, Reply, done, fail, Outcome, ok, err, panicked, Action, ◌>>=◌, check,
}

module _ {W : Type 0} (J : W → Type 0) where
  abbrev pub Post : {A : Type 0} → (A → W → Type 0) → Outcome A × W → Type 0
  Post Q (ok a, w) = Q a w
  Post Q (err e, w) = J w
  Post Q (panicked, w) = J w

  -- A sequence: what the first part leaves is what the second starts from.
  pub >>=-Post :
      {A B : Type 0} (Q : A → W → Type 0) (R : B → W → Type 0) (m : Action W A) (f : A → Action W B)
      (w : W)
      → Post Q (m w)
      → ((a : A) (w' : W) → Q a w' → Post R (f a w'))
      → Post R ((m >>= f) w)
  >>=-Post {A} Q R m f w h k = bound (m w).0 (m w).1 h
    where
      bound : (o : Outcome A) (w' : W) → Post Q (o, w') → Post R (((λ (u : W). (o, w')) >>= f) w)
      bound (ok a) w' h = k a w' h
      bound (err e) w' h = h
      bound panicked w' h = h

  pub check-Post :
      {A : Type 0} (Q : A → W → Type 0) (wrap : Error → Error) (r : Reply A) (w : W)
      → J w
      → ((a : A) → r ≡ done a → Q a w)
      → Post Q (check wrap r w)
  check-Post Q wrap (done a) w j k = k a refl
  check-Post Q wrap (fail e) w j k = j

pub Reply-cases :
    {A : Type 0} (r : Reply A) → ((a : A) × (r ≡ done a)) ⊎ ((e : Error) × (r ≡ fail e))
Reply-cases (done a) = inl (a, refl)
Reply-cases (fail e) = inr (e, refl)
