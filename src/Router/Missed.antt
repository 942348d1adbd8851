-- ===== src/Router/Missed.antt =====
-- When a request that waits is told that its connection runs, and when it is not.
use tensor_fusion_operator.Prelude.{none, ap, ℕ, arith, true, List, [], ◌∷◌, some, ◌≡◌, refl}
use tensor_fusion_operator.Api.{NamespacedName, TensorFusionConnection}
use tensor_fusion_operator.Router.{
  Channel, name_of, set_at, set_name, subscribe, runs, fresh_channel,
}
use tensor_fusion_operator.Router.System.{
  Pc, Response, System, Reach, From, here, step, later, From-Reach, change, deliver, enter,
  receive_running, leave,
}
use tensor_fusion_operator.Router.Invariant.{owns}
use tensor_fusion_operator.Router.Steps.{same_name_refl}
use tensor_fusion_operator.Router.Leaving.{cancel-Holding}
use tensor_fusion_operator.Router.Keeping.{publish-Sent}
use tensor_fusion_operator.Router.Safety.{Reach-Inv}

set_at_same : {A : Type 0} (f : ℕ → A) (n : ℕ) (a : A) → set_at f n a n ≡ a
set_at_same f n a = ground arith

set_name_same :
    {A : Type 0} (f : NamespacedName → A) (k : NamespacedName) (a : A) → set_name f k a k ≡ a
set_name_same f k a = rw (same_name_refl k) refl

module _ {Q : Type 0} where
  stay : (s : System Q) → From s s
  stay s = here

  leaves :
      {s : System Q}
      → Reach s
      → (i : ℕ) (k : NamespacedName) (ch : ℕ) (a : Response) → s.pc i ≡ Pc.leaving k ch a
      → (t : System Q) × From s t
        × (t.pc i ≡ Pc.finished k a)
        × (t.past ≡ s.past)
        × (t.stored ≡ s.stored)
  leaves {s} r i k ch a at_end =
      let inv = Reach-Inv r in
      let (dw, done, hold, same) =
        cancel-Holding i k ch (Pc.finished k a) s.watcher s.pc inv.holding (ap owns at_end) refl in
      let left = later (stay s) (leave i k ch a at_end) in
      let at_left : From s (record s { watcher = dw; pc = set_at s.pc i (Pc.finished k a) }) =
        rw done at left in
      (_, at_left, set_at_same s.pc i (Pc.finished k a), refl, refl)

  From-trans : {s t u : System Q} → From s t → From t u → From s u
  From-trans p here = p
  From-trans p (step q one) = step (From-trans p q) one

  -- A request that waits with an empty channel, when the oldest event is a version of its connection
  -- that runs: the system can go on from there to a state where the request has answered with the URL
  -- of that version, without any version being stored or removed in between.
  pub notified :
      {s : System Q}
      → Reach s
      → (i : ℕ) (ch : ℕ) (c : TensorFusionConnection Q) (rest : List (TensorFusionConnection Q))
      → s.pc i ≡ Pc.waiting (name_of c) ch
      → (s.watcher.channels ch).buffer ≡ none
      → s.events ≡ c ∷ rest
      → runs c ≡ true
      → (t : System Q) × From s t
        × (t.pc i ≡ Pc.finished (name_of c) (Response.url c.status.connection_url))
        × (t.past ≡ s.past)
        × (t.stored ≡ s.stored)
  notified {s} r i ch c rest waits empty queue running =
      let answer = Response.url c.status.connection_url in
      let inv = Reach-Inv r in
      let (new, sent, all) = publish-Sent s c inv in
      let told : System Q = record s {
        events = rest;
        watcher = record (s.watcher) { channels = new };
      } in
      let delivered = later (stay s) (deliver c rest queue) in
      let at_told : From s told = rw sent at delivered in
      let full = all.reached ch (inv.holding.held i (name_of c) ch (ap owns waits)) empty in
      let at_leaving = later at_told (receive_running i (name_of c) ch c waits full running) in
      let (t, path, finished, past, stored) =
        leaves (From-Reach r at_leaving) i (name_of c) ch answer
          (set_at_same s.pc i (Pc.leaving (name_of c) ch answer)) in
      (t, From-trans at_leaving path, finished, past, stored)

  -- From every reachable state in which a request has read its connection and not yet subscribed, and no
  -- event is in flight, the request can miss the next version, also one that runs: the system can go
  -- on to a state where that version, the only one stored since, is the current one, no event is left,
  -- and the request waits on an empty channel.
  pub missed_update :
      {s : System Q}
      → Reach s
      → (i : ℕ) (c : TensorFusionConnection Q) → s.pc i ≡ Pc.fetched (name_of c)
      → s.events ≡ []
      → (t : System Q) × From s t
        × (t.past ≡ c ∷ s.past)
        × (t.stored (name_of c) ≡ some c)
        × (t.events ≡ [])
        × (t.pc i ≡ Pc.waiting (name_of c) s.watcher.next)
        × ((t.watcher.channels s.watcher.next).buffer ≡ none)
  unfolding subscribe
  missed_update {s} r i c read none_left =
      let changed = later (stay s) (change c) in
      let inv = Reach-Inv (From-Reach r changed) in
      let (new, sent, all) = publish-Sent _ c inv in
      let delivered = later changed (deliver c [] (rw none_left refl)) in
      let at_told : From s (record s {
        stored = set_name s.stored (name_of c) (some c);
        past = c ∷ s.past;
        events = [];
        watcher = record (s.watcher) { channels = new };
      }) =
        rw sent at delivered in
      (
        _,
        step at_told (enter i (name_of c) read),
        refl,
        set_name_same s.stored (name_of c) (some c),
        refl,
        set_at_same s.pc i (Pc.waiting (name_of c) s.watcher.next),
        ap (λ (x : Channel Q). x.buffer) (set_at_same new s.watcher.next fresh_channel),
      )
