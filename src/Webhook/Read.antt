-- ===== src/Webhook/Read.antt =====
-- The connection that the webhook writes into a container is the one that is read from it.
use tensor_fusion_operator.Prelude.{
  ℕ, String, ◌<>◌, ◌==◌, Bool, List, [], ◌∷◌, ◌++◌, Option, none, some, find, Reply, Dict, ◌≡◌,
  refl, ap, arith,
}
use tensor_fusion_operator.Quantity.{Quantity}
use tensor_fusion_operator.Api.{ClientConfig, Container, EnvVar, Pod}
use tensor_fusion_operator.Webhook.{container_resource, env_value}
use tensor_fusion_operator.Webhook.Patch.{
  Env, connection_env, connection_name, connection_name_env, connection_namespace_env,
  get_connection_url_env, with_connection,
}

find-append :
    {A : Type 0} (p : A → Bool) (xs ys : List A) → find p xs ≡ none → find p (xs ++ ys) ≡ find p ys
find-append p [] ys h = refl
find-append p (x ∷ xs) ys h = ground (arith, find-append p xs ys)

abbrev pub Lacks : String → Container → Type 0
Lacks name c = find (λ (e : EnvVar). e.name == name) c.env ≡ none

env_value-append :
    (name : String) (c : Container) (added : List EnvVar)
    → Lacks name c
    → env_value name (record c { env = c.env ++ added }) ≡ env_value name (record c { env = added })
unfolding env_value
env_value-append name c added h =
    ap (λ (o : Option EnvVar). elim o [ none ↦ "" | some e ↦ e.value ])
      (find-append (λ (e : EnvVar). e.name == name) c.env added h)

-- A container that had none of the three variables, once it has got a connection: the pod reconciler reads
-- from it the name of that connection and the namespace of the pod, and the third variable is the
-- URL of the operator that asks for that name in that namespace.
pub with_connection_lem :
    {Q J R P : Type 0} ⦃q : Quantity Q⦄ (env : Env Q J R P) (parse : String → Reply Q)
    (annotations : Dict String) (config : ClientConfig) (pod : Pod) (c : Container) (n : ℕ)
    → Lacks connection_name_env c
    → Lacks connection_namespace_env c
    → Lacks get_connection_url_env c
    → ((container_resource parse annotations (with_connection env config pod c n)).connection_name
        ≡ connection_name env pod c n)
      × ((container_resource parse annotations
            (with_connection env config pod c n)).connection_namespace
          ≡ pod.meta.namespace)
      × (env_value get_connection_url_env (with_connection env config pod c n)
          ≡ config.operator_endpoint
            <> "/api/connection?name="
            <> connection_name env pod c n
            <> "&namespace="
            <> pod.meta.namespace)
unfolding container_resource env_value with_connection
with_connection_lem env parse annotations config pod c n a b d =
    let added =
      connection_env config.operator_endpoint (connection_name env pod c n) pod.meta.namespace in
    (
      env_value-append connection_name_env c added a,
      env_value-append connection_namespace_env c added b,
      env_value-append get_connection_url_env c added d,
    )
