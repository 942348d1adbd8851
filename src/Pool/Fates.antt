-- ===== src/Pool/Fates.antt =====
-- What becomes of a node that the vendor has created.
use tensor_fusion_operator.Prelude.{
  ◌∷◌, Error, Reply, done, fail, Outcome, ok, err, panicked, ◌≡◌, refl, ◌⊎◌, inl, inr, arith,
}
use tensor_fusion_operator.Quantity.{Quantity}
use tensor_fusion_operator.Api.{GpuNode}
use tensor_fusion_operator.CloudProvider.Types.{GpuNodeStatus, NodeCreationParam}
use tensor_fusion_operator.Pool.World.{
  Env, History, get_node, patch_node_status, terminate_node, event,
}
use tensor_fusion_operator.Pool.Provision.{identity, record_node, store, undo, with_info}

Reply-cases : {A : Type 0} (r : Reply A) → ((a : A) × (r ≡ done a)) ⊎ ((e : Error) × (r ≡ fail e))
Reply-cases (done a) = inl (a, refl)
Reply-cases (fail e) = inr (e, refl)

module _ {Q F : Type 0} ⦃q : Quantity Q⦄ (env : Env Q F) (param : NodeCreationParam Q)
    (status : GpuNodeStatus) where
  -- The history after the GPUNode was read, and after the patch of its status was sent.
  abbrev asked : History Q → History Q
  asked h = get_node param.node_name ∷ h

  abbrev sent : GpuNode Q → History Q → History Q
  sent node h = patch_node_status (with_info status param node) ∷ asked h

  abbrev ended : GpuNode Q → History Q → History Q
  ended node h = terminate_node (identity status param) ∷ sent node h

  -- The vendor's node stands in the status of its GPUNode.
  pub record Recorded (h : History Q) (r : Outcome (Unit {0})) (h' : History Q) : Type 0 where
    pub node : GpuNode Q
    pub found : env.node h param.node_name ≡ done node
    pub stored : env.node_status_patched (asked h) (with_info status param node) ≡ done tt
    pub result : r ≡ ok tt
    pub history : h' ≡ event "GPUNodeCreated" ∷ sent node h

  -- The patch of the status failed, and the vendor was told to terminate the node: it did and there is
  -- an error, or it refused and there is a panic.
  pub record Terminated (h : History Q) (r : Outcome (Unit {0})) (h' : History Q) : Type 0 where
    pub node : GpuNode Q
    pub found : env.node h param.node_name ≡ done node
    pub failure : Error
    pub unstored : env.node_status_patched (asked h) (with_info status param node) ≡ fail failure
    pub history : h' ≡ ended node h
    pub result :
        ((e : Error) × (env.node_terminated (sent node h) (identity status param) ≡ done tt)
          × (r ≡ err e))
        ⊎ ((e : Error) × (env.node_terminated (sent node h) (identity status param) ≡ fail e)
            × (r ≡ panicked))

  -- The GPUNode cannot be read: there is an error, and nothing was done about the vendor's node.
  pub record Left (h : History Q) (r : Outcome (Unit {0})) (h' : History Q) : Type 0 where
    pub error : Error
    pub unread : env.node h param.node_name ≡ fail error
    pub result : r ≡ err error
    pub history : h' ≡ asked h

  -- A node that the vendor has created is recorded in the status of its GPUNode; or, if that status
  -- cannot be written, the vendor is told to terminate it, with a panic if that fails; or, if the
  -- GPUNode cannot be read, it is left running with an error and nothing else is called.
  pub record_node_fate :
      (h : History Q)
      → Recorded h (record_node env param status h).0 (record_node env param status h).1
        ⊎ (Terminated h (record_node env param status h).0 (record_node env param status h).1
            ⊎ Left h (record_node env param status h).0 (record_node env param status h).1)
  unfolding record_node store undo
  record_node_fate h = elim (Reply-cases (env.node h param.node_name)) [
    | inr (e, unread) ↦
        inr (
          inr
            (record { error = e; unread = unread; result = ground arith; history = ground arith }))
    | inl (node, found) ↦
        elim (Reply-cases (env.node_status_patched (asked h) (with_info status param node))) [
          | inl (tt, stored) ↦ inl (record {
            node = node;
            found = found;
            stored = stored;
            result = ground arith;
            history = ground arith;
          })
          | inr (e, unsent) ↦
              elim (Reply-cases (env.node_terminated (sent node h) (identity status param))) [
                | inl (tt, gone) ↦ inr (
                    inl (record {
                      node = node;
                      found = found;
                      failure = e;
                      unstored = unsent;
                      history = ground arith;
                      result = inl (e, gone, ground arith);
                    }))
                | inr (e', alive) ↦ inr (
                    inl (record {
                      node = node;
                      found = found;
                      failure = e;
                      unstored = unsent;
                      history = ground arith;
                      result = inr (e', alive, ground arith);
                    }))
              ]
        ]
  ]
