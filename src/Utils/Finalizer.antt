-- ===== src/Utils/Finalizer.antt =====
-- `HandleFinalizer`: an object that is not being deleted gets the operator's finalizer, and one that
-- is being deleted loses it once the deletion hook has succeeded.
use tensor_fusion_operator.Prelude.{
  ◌≡◌, ap, String, Bool, true, false, none, some, if◌then◌else◌, Action, Reply, ok, done, fail,
  ◌>>=◌, ◌>>◌, pure, check, same_error, ◌⊎◌, inl, inr, Bool-cases, >>=-eq-ok,
}
use tensor_fusion_operator.Api.{ObjectMeta, finalizer}

-- controller-runtime's `controllerutil`, which is not code of this repository.
pub record ControllerUtil : Type 0 where
  pub contains_finalizer : ObjectMeta → String → Bool
  pub add_finalizer : ObjectMeta → String → ObjectMeta
  pub remove_finalizer : ObjectMeta → String → ObjectMeta
  pub contains-add : (m : ObjectMeta) (f : String) → contains_finalizer (add_finalizer m f) f ≡ true
  pub contains-remove :
      (m : ObjectMeta) (f : String) → contains_finalizer (remove_finalizer m f) f ≡ false

-- The type parameter `T client.Object` of `HandleFinalizer`.
pub record Object (T : Type 0) : Type 0 where
  pub meta : T → ObjectMeta
  pub with_meta : T → ObjectMeta → T

-- `!obj.GetDeletionTimestamp().IsZero()`
abbrev pub is_deleted : ObjectMeta → Bool
is_deleted m = elim m.deletion_timestamp [ none ↦ false | some t ↦ true ]

module _ {W T : Type 0} (util : ControllerUtil) (object : Object T)
    (update : T → Action W (Reply T)) where
  open util use {contains_finalizer, add_finalizer, remove_finalizer}
  open object use {meta, with_meta}

  -- What an answer "deleted" stands for: the object had no finalizer and nothing was called, or the
  -- hook succeeded and then the object was updated without the finalizer.
  abbrev pub Finalized : (T → Action W (Unit {0})) → T → W → T → W → Type 0
  Finalized hook obj w obj' w' =
      ((contains_finalizer (meta obj) finalizer ≡ false) × (obj' ≡ obj) × (w' ≡ w))
      ⊎ ((mid : W) × (hook obj w ≡ (ok tt, mid))
          × (update (with_meta obj (remove_finalizer (meta obj) finalizer)) mid
              ≡ (ok (done obj'), w')))

  -- `r.Update(ctx, obj)`, which leaves the service's answer in `obj`.
  unfoldable pub update_object : T → Action W T
  update_object obj = do answer ← update obj; check same_error answer

  unfoldable pub finalize : (T → Action W (Unit {0})) → T → Action W (Bool × T)
  unfolding update_object
  finalize delete_hook obj = do
    delete_hook obj
    obj' ← update_object (with_meta obj (remove_finalizer (meta obj) finalizer))
    pure (true, obj')

  unfoldable pub protect : T → Action W (Bool × T)
  unfolding update_object
  protect obj = do
    obj' ← update_object (with_meta obj (add_finalizer (meta obj) finalizer))
    pure (false, obj')

  -- The answer is whether the object is being deleted; the object is what the last update left.
  unfoldable pub handle_finalizer : (T → Action W (Unit {0})) → T → Action W (Bool × T)
  unfolding finalize protect
  handle_finalizer delete_hook obj =
      if is_deleted (meta obj)
      then (if contains_finalizer (meta obj) finalizer
          then finalize delete_hook obj
          else pure (true, obj))
      else (if contains_finalizer (meta obj) finalizer then pure (false, obj) else protect obj)

  check-eq-ok :
      (answer : Reply T) {w w' : W} {t : T}
      → check same_error answer w ≡ (ok t, w')
      → (answer ≡ done t) × (w' ≡ w)
  check-eq-ok (done a) h = (cc, cc)
  check-eq-ok (fail e) h = absurd (cc)

  update_object-eq-ok :
      (obj obj' : T) (w w' : W)
      → update_object obj w ≡ (ok obj', w')
      → update obj w ≡ (ok (done obj'), w')
  unfolding update_object
  update_object-eq-ok obj obj' w w' h =
      let (answer, updated, rest) = >>=-eq-ok (update obj) (check same_error) w h in
      let (answered, same) = check-eq-ok answer rest in cc

  finalize-eq-ok :
      (hook : T → Action W (Unit {0})) (obj obj' : T) (w w' : W) {b : Bool}
      → finalize hook obj w ≡ (ok (b, obj'), w')
      → Finalized hook obj w obj' w'
  unfolding finalize
  finalize-eq-ok hook obj obj' w w' h =
      let cleared : T = with_meta obj (remove_finalizer (meta obj) finalizer) in
      let last : T → Action W (Bool × T) = λ x. pure (true, x) in
      let (u, hooked, rest) = >>=-eq-ok (hook obj) (λ _. update_object cleared >>= last) w h in
      let (x, updated, ended) = >>=-eq-ok (update_object cleared) last (hook obj w).1 rest in
      inr (
        (hook obj w).1,
        ap (λ o. (o, (hook obj w).1)) hooked,
        update_object-eq-ok cleared obj' (hook obj w).1 w' (cc),
      )

  protect-ne-deleted : (obj obj' : T) (w w' : W) → protect obj w ≡ (ok (true, obj'), w') → ⊥
  unfolding protect
  protect-ne-deleted obj obj' w w' h =
      let last : T → Action W (Bool × T) = λ x. pure (false, x) in
      let (x, updated, ended) =
        >>=-eq-ok (update_object (with_meta obj (add_finalizer (meta obj) finalizer))) last w h in
      absurd (cc)

  -- An answer "deleted" without an error comes only of an object that is being deleted; if it still
  -- had the finalizer, the deletion hook succeeded before the update that removes the finalizer,
  -- and no other call was made.
  pub handle_finalizer-Finalized :
      (hook : T → Action W (Unit {0})) (obj obj' : T) (w w' : W)
      → handle_finalizer hook obj w ≡ (ok (true, obj'), w')
      → (is_deleted (meta obj) ≡ true) × Finalized hook obj w obj' w'
  unfolding handle_finalizer
  handle_finalizer-Finalized hook obj obj' w w' h = elim (Bool-cases (is_deleted (meta obj))) [
    | inl gone ↦ elim (Bool-cases (contains_finalizer (meta obj) finalizer)) [
      | inl has ↦ (gone, finalize-eq-ok hook obj obj' w w' (rw (gone, has) at h))
      | inr lacks ↦
          let h' : pure {W = W} (true, obj) w ≡ (ok (true, obj'), w') = rw (gone, lacks) at h in
          (gone, inl (lacks, cc h', cc h'))
    ]
    | inr kept ↦ elim (Bool-cases (contains_finalizer (meta obj) finalizer)) [
      | inl has ↦
          let h' : pure {W = W} (false, obj) w ≡ (ok (true, obj'), w') = rw (kept, has) at h in
          absurd (cc h')
      | inr lacks ↦ absurd (protect-ne-deleted obj obj' w w' (rw (kept, lacks) at h))
    ]
  ]
