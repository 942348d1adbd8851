-- ===== src/Router.antt =====
-- internal/server/router/connection.go: the HTTP handler that waits until a connection runs, and the
-- watcher that hands it the changes. Each operation of the watcher holds the lock for its whole body.
pub mod System
pub mod Invariant
pub mod Steps
pub mod Leaving
pub mod Keeping
pub mod Safety
pub mod Missed
mod Tests
use tensor_fusion_operator.Prelude.{
  ℕ, suc, String, ◌==◌, Bool, true, false, ◌&&◌, not, List, [], ◌∷◌, keep, is_empty, Option, none,
  some, eqb, if◌then◌else◌,
}
use tensor_fusion_operator.Api.{NamespacedName, TensorFusionConnection, TensorFusionConnectionPhase}

abbrev pub same_name : NamespacedName → NamespacedName → Bool
same_name a b = (a.name == b.name) && (a.namespace == b.namespace)

abbrev pub name_of : {Q : Type 0} → TensorFusionConnection Q → NamespacedName
name_of c = record { name = c.meta.name; namespace = c.meta.namespace }

abbrev pub runs : {Q : Type 0} → TensorFusionConnection Q → Bool
runs c = elim c.status.phase [ TensorFusionConnectionPhase.running ↦ true | _ ↦ false ]

-- A Go channel with a buffer of one element.
pub record Channel (Q : Type 0) : Type 0 where
  pub buffer : Option (TensorFusionConnection Q)
  pub closed : Bool

-- `connectionWatcher`: a channel is a number, and `next` the first that no channel has; a set of
-- channels is a list.
pub record ConnectionWatcher (Q : Type 0) : Type 0 where
  pub subs : NamespacedName → Option (List ℕ)
  pub channels : ℕ → Channel Q
  pub next : ℕ

abbrev pub set_at {ℓ} : {A : Type ℓ} → (ℕ → A) → ℕ → A → ℕ → A
set_at f n a m = if eqb n m then a else f m

abbrev pub set_name {ℓ} :
    {A : Type ℓ} → (NamespacedName → A) → NamespacedName → A → NamespacedName → A
set_name f k a j = if same_name k j then a else f j

abbrev pub members : Option (List ℕ) → List ℕ
members none = []
members (some set) = set

-- The set without a channel; the key is removed with its last channel.
abbrev pub nonempty : List ℕ → Option (List ℕ)
nonempty [] = none
nonempty (ch ∷ set) = some (ch ∷ set)

abbrev pub without : ℕ → List ℕ → List ℕ
without ch set = keep (λ c. not (eqb ch c)) set

module _ {Q : Type 0} where
  abbrev pub fresh_channel : Channel Q
  fresh_channel = record { buffer = none; closed = false }

  -- The answer is the new channel.
  unfoldable pub subscribe : NamespacedName → ConnectionWatcher Q → ℕ × ConnectionWatcher Q
  subscribe req cw = (
    cw.next,
    record {
      subs = set_name cw.subs req (some (cw.next ∷ members (cw.subs req)));
      channels = set_at cw.channels cw.next fresh_channel;
      next = suc cw.next;
    },
  )

  -- `close` of a closed channel panics: that is the answer `none`.
  unfoldable pub close : ℕ → (ℕ → Channel Q) → Option (ℕ → Channel Q)
  close ch channels =
      let c = channels ch in
      if c.closed then none else some (set_at channels ch (record c { closed = true }))

  -- `cancelFunc`
  unfoldable pub cancel : NamespacedName → ℕ → ConnectionWatcher Q → Option (ConnectionWatcher Q)
  unfolding close
  cancel req ch cw = elim (cw.subs req) [
    | none ↦ some cw
    | some set ↦ elim (close ch cw.channels) [
      | none ↦ none
      | some channels ↦ some (record {
        subs = set_name cw.subs req (nonempty (without ch set));
        channels = channels;
        next = cw.next;
      })
    ]
  ]

  -- A send on a closed channel panics; a full channel is skipped.
  unfoldable pub offer : TensorFusionConnection Q → Channel Q → Option (Channel Q)
  offer conn c =
      if c.closed
      then none
      else elim c.buffer [ none ↦ some (record c { buffer = some conn }) | some old ↦ some c ]

  unfoldable pub send_all :
      TensorFusionConnection Q → List ℕ → (ℕ → Channel Q) → Option (ℕ → Channel Q)
  unfolding offer
  send_all conn [] channels = some channels
  send_all conn (ch ∷ set) channels = elim (offer conn (channels ch)) [
    | none ↦ none
    | some c ↦ send_all conn set (set_at channels ch c)
  ]

  -- The body of `watchConnections` for one event.
  unfoldable pub publish :
      TensorFusionConnection Q → ConnectionWatcher Q → Option (ConnectionWatcher Q)
  unfolding send_all
  publish conn cw = elim (send_all conn (members (cw.subs (name_of conn))) cw.channels) [
    | none ↦ none
    | some channels ↦ some (record cw { channels = channels })
  ]
