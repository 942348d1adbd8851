-- ===== src/Router/Invariant.antt =====
-- Who holds which channel, and what the channels carry; true at the start and kept by every step.
use tensor_fusion_operator.Prelude.{
  ℕ, Bool, true, false, List, [], ◌∷◌, Any, Option, none, some, ◌<◌, ◌≡◌, ◌≢◌, eqb, if◌then◌else◌,
}
use tensor_fusion_operator.Api.{NamespacedName, TensorFusionConnection}
use tensor_fusion_operator.Router.{ConnectionWatcher, members, name_of, runs}
use tensor_fusion_operator.Router.System.{Pc, Response, System}

abbrev pub has : ℕ → List ℕ → Bool
has ch [] = false
has ch (n ∷ set) = if eqb ch n then true else has ch set

-- The channel that a request has subscribed, with its key.
abbrev pub owns : Pc → Option (NamespacedName × ℕ)
owns Pc.idle = none
owns (Pc.fetched k) = none
owns (Pc.waiting k ch) = some (k, ch)
owns (Pc.leaving k ch r) = some (k, ch)
owns (Pc.finished k r) = none

-- The answer of a request, if it has one.
abbrev pub answer_of : Pc → Option (NamespacedName × Response)
answer_of Pc.idle = none
answer_of (Pc.fetched k) = none
answer_of (Pc.waiting k ch) = none
answer_of (Pc.leaving k ch r) = some (k, r)
answer_of (Pc.finished k r) = some (k, r)

pub record Holding {Q : Type 0} (cw : ConnectionWatcher Q) (pc : ℕ → Pc) : Type 0 where
  pub held :
      (i : ℕ) (k : NamespacedName) (ch : ℕ)
      → owns (pc i) ≡ some (k, ch)
      → has ch (members (cw.subs k)) ≡ true
  pub owned :
      (k : NamespacedName) (ch : ℕ)
      → has ch (members (cw.subs k)) ≡ true
      → (i : ℕ) × (owns (pc i) ≡ some (k, ch))
  pub apart :
      (i j : ℕ) (k l : NamespacedName) (ch : ℕ)
      → owns (pc i) ≡ some (k, ch)
      → owns (pc j) ≡ some (l, ch)
      → i ≡ j
  pub open_channel :
      (i : ℕ) (k : NamespacedName) (ch : ℕ)
      → owns (pc i) ≡ some (k, ch)
      → (cw.channels ch).closed ≡ false
  pub below : (i : ℕ) (k : NamespacedName) (ch : ℕ) → owns (pc i) ≡ some (k, ch) → ch < cw.next
  pub solid : (k : NamespacedName) → cw.subs k ≢ some []

module _ {Q : Type 0} where
  -- Some version of the connection satisfies a predicate.
  abbrev pub Had :
      List (TensorFusionConnection Q)
      → NamespacedName
      → (TensorFusionConnection Q → Type 0)
      → Type 0
  Had past k P = Any (λ c. (name_of c ≡ k) × P c) past

  -- An answer is 404, or the URL that some version of the connection had while it ran.
  abbrev pub Honest : List (TensorFusionConnection Q) → NamespacedName → Response → Type 0
  Honest past k Response.missing = Unit
  Honest past k (Response.url u) = Had past k (λ c. (runs c ≡ true) × (u ≡ c.status.connection_url))
  Honest past k Response.silent = ⊥

  abbrev pub Stored : List (TensorFusionConnection Q) → TensorFusionConnection Q → Type 0
  Stored past c = Any (λ d. d ≡ c) past

  pub record Sound (s : System Q) : Type 0 where
    pub kept :
        (k : NamespacedName) (c : TensorFusionConnection Q)
        → s.stored k ≡ some c
        → (name_of c ≡ k) × Stored s.past c
    pub queued : (c : TensorFusionConnection Q) → Any (λ d. d ≡ c) s.events → Stored s.past c
    pub carried :
        (i : ℕ) (k : NamespacedName) (ch : ℕ) (c : TensorFusionConnection Q)
        → owns (s.pc i) ≡ some (k, ch)
        → (s.watcher.channels ch).buffer ≡ some c
        → (name_of c ≡ k) × Stored s.past c
    pub honest :
        (i : ℕ) (k : NamespacedName) (r : Response)
        → answer_of (s.pc i) ≡ some (k, r)
        → Honest s.past k r
