-- ===== src/Utils/Hooked.antt =====
-- What `HandleFinalizer` leaves of a property of the world that its hook and its update keep.
use tensor_fusion_operator.Prelude.{
  Bool, true, false, Reply, done, fail, same_error, Action, ◌>>=◌, pure, check, Post, >>=-Post, inl,
  inr, Bool-cases,
}
use tensor_fusion_operator.Api.{finalizer}
use tensor_fusion_operator.Utils.Finalizer.{
  ControllerUtil, Object, finalize, handle_finalizer, is_deleted, protect, update_object,
}

module _ {W T : Type 0} (util : ControllerUtil) (object : Object T)
    (update : T → Action W (Reply T)) (J : W → Type 0)
    (kept : (t : T) (w : W) → J w → Post J (λ _ w'. J w') (update t w)) where
  open util use {contains_finalizer, add_finalizer, remove_finalizer}
  open object use {meta, with_meta}

  update_object-Post :
      (t : T) (w : W) → J w → Post J (λ _ w'. J w') (update_object util object update t w)
  unfolding update_object
  update_object-Post t w j =
      >>=-Post J (λ _ w'. J w') (λ _ w'. J w') (update t) (check same_error) w (kept t w j) checked
    where
      checked : (a : Reply T) (w' : W) → J w' → Post J (λ _ w''. J w'') (check same_error a w')
      checked (done a) w' k = k
      checked (fail e) w' k = k

  pub handle_finalizer-Post :
      (hook : T → Action W (Unit {0})) (obj : T) (w : W)
      → ((w' : W) → J w' → Post J (λ _ w''. J w'') (hook obj w'))
      → J w
      → Post J (λ _ w'. J w') (handle_finalizer util object update hook obj w)
  unfolding handle_finalizer finalize protect
  handle_finalizer-Post hook obj w h j =
      let removed = with_meta obj (remove_finalizer (meta obj) finalizer) in
      let added = with_meta obj (add_finalizer (meta obj) finalizer) in
      let off : T → Action W (Bool × T) = λ x. pure (true, x) in
      let on : T → Action W (Bool × T) = λ x. pure (false, x) in
      elim (Bool-cases (is_deleted (meta obj))) [
        | inl d ↦ elim (Bool-cases (contains_finalizer (meta obj) finalizer)) [
          | inl c ↦
              rw (d, c)
                (>>=-Post J (λ _ w'. J w') (λ _ w'. J w') (hook obj)
                  (λ _. update_object util object update removed >>= off) w (h w j)
                  (λ _ w' k.
                    >>=-Post J (λ _ w''. J w'') (λ _ w''. J w'')
                      (update_object util object update removed) off w'
                      (update_object-Post removed w' k) (λ _ w'' l. l)))
          | inr c ↦ rw (d, c) j
        ]
        | inr d ↦ elim (Bool-cases (contains_finalizer (meta obj) finalizer)) [
          | inl c ↦ rw (d, c) j
          | inr c ↦
              rw (d, c)
                (>>=-Post J (λ _ w'. J w') (λ _ w'. J w') (update_object util object update added)
                  on w (update_object-Post added w j) (λ _ w' k. k))
        ]
      ]
