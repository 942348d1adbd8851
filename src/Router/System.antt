-- ===== src/Router/System.antt =====
-- Any number of requests, the API server and the watcher, interleaved in any order.
use tensor_fusion_operator.Prelude.{
  ℕ, String, Bool, true, false, List, [], ◌∷◌, ◌++◌, Option, none, some, ◌≡◌,
}
use tensor_fusion_operator.Api.{NamespacedName, TensorFusionConnection}
use tensor_fusion_operator.Router.{
  ConnectionWatcher, cancel, name_of, publish, runs, set_at, set_name, subscribe,
}

-- The answer of `Get`: 404, 200 with the URL, or nothing when the loop over the channel ends.
pub data Response : Type 0 where
  missing : Response
  url : String → Response
  silent : Response

-- Where a request stands in `Get`.
pub data Pc : Type 0 where
  idle : Pc
  fetched : NamespacedName → Pc  -- the connection was found and does not run: about to subscribe
  waiting : NamespacedName → ℕ → Pc  -- in the loop over the channel
  leaving : NamespacedName → ℕ → Response → Pc  -- answered: about to cancel
  finished : NamespacedName → Response → Pc

-- The connections on the API server with all their versions so far, the events that the watcher has
-- not yet received, and whether some goroutine has panicked.
pub record System (Q : Type 0) : Type 0 where
  pub stored : NamespacedName → Option (TensorFusionConnection Q)
  pub past : List (TensorFusionConnection Q)
  pub events : List (TensorFusionConnection Q)
  pub watcher : ConnectionWatcher Q
  pub pc : ℕ → Pc
  pub crashed : Bool

abbrev pub after_publish :
    {Q : Type 0}
    → System Q
    → List (TensorFusionConnection Q)
    → Option (ConnectionWatcher Q)
    → System Q
after_publish s events none = record s { events = events; crashed = true }
after_publish s events (some cw) = record s { events = events; watcher = cw }

abbrev pub after_cancel : {Q : Type 0} → System Q → ℕ → Pc → Option (ConnectionWatcher Q) → System Q
after_cancel s i pc none = record s { crashed = true }
after_cancel s i pc (some cw) = record s { watcher = cw; pc = set_at s.pc i pc }

abbrev pub received : {Q : Type 0} → System Q → ℕ → ℕ → Pc → System Q
received s i ch pc =
    let cw = s.watcher in
    let c = cw.channels ch in
    record s {
      watcher = record cw { channels = set_at cw.channels ch (record c { buffer = none }) };
      pc = set_at s.pc i pc;
    }

module _ {Q : Type 0} where
  abbrev pub moved : System Q → ℕ → Pc → System Q
  moved s i pc = record s { pc = set_at s.pc i pc }

  abbrev pub subscribed : System Q → ℕ → NamespacedName → System Q
  subscribed s i req =
      let (ch, cw) = subscribe req s.watcher in
      record s { watcher = cw; pc = set_at s.pc i (Pc.waiting req ch) }

  pub data Step (s : System Q) : System Q → Type 0 where
    -- The API server stores a version of a connection, or removes it, and sends the event.
    change :
        (c : TensorFusionConnection Q)
        → Step s (record s {
          stored = set_name s.stored (name_of c) (some c);
          past = c ∷ s.past;
          events = s.events ++ c ∷ [];
        })
    remove :
        (c : TensorFusionConnection Q)
        → s.stored (name_of c) ≡ some c
        → Step s
            (record s { stored = set_name s.stored (name_of c) none; events = s.events ++ c ∷ [] })
    -- The watcher receives an event.
    deliver :
        (c : TensorFusionConnection Q) (rest : List (TensorFusionConnection Q))
        → s.events ≡ c ∷ rest
        → Step s (after_publish s rest (publish c s.watcher))
    -- A request reads its connection, which can fail at any time.
    fail_get :
        (i : ℕ) (req : NamespacedName)
        → s.pc i ≡ Pc.idle
        → Step s (moved s i (Pc.finished req Response.missing))
    get_running :
        (i : ℕ) (req : NamespacedName) (c : TensorFusionConnection Q)
        → s.pc i ≡ Pc.idle
        → s.stored req ≡ some c
        → runs c ≡ true
        → Step s (moved s i (Pc.finished req (Response.url c.status.connection_url)))
    get_other :
        (i : ℕ) (req : NamespacedName) (c : TensorFusionConnection Q)
        → s.pc i ≡ Pc.idle
        → s.stored req ≡ some c
        → runs c ≡ false
        → Step s (moved s i (Pc.fetched req))
    enter : (i : ℕ) (req : NamespacedName) → s.pc i ≡ Pc.fetched req → Step s (subscribed s i req)
    -- The loop over the channel.
    receive_running :
        (i : ℕ) (req : NamespacedName) (ch : ℕ) (c : TensorFusionConnection Q)
        → s.pc i ≡ Pc.waiting req ch
        → (s.watcher.channels ch).buffer ≡ some c
        → runs c ≡ true
        → Step s (received s i ch (Pc.leaving req ch (Response.url c.status.connection_url)))
    receive_other :
        (i : ℕ) (req : NamespacedName) (ch : ℕ) (c : TensorFusionConnection Q)
        → s.pc i ≡ Pc.waiting req ch
        → (s.watcher.channels ch).buffer ≡ some c
        → runs c ≡ false
        → Step s (received s i ch (Pc.waiting req ch))
    exhausted :
        (i : ℕ) (req : NamespacedName) (ch : ℕ)
        → s.pc i ≡ Pc.waiting req ch
        → (s.watcher.channels ch).buffer ≡ none
        → (s.watcher.channels ch).closed ≡ true
        → Step s (moved s i (Pc.leaving req ch Response.silent))
    -- The deferred `cancelFunc`
    leave :
        (i : ℕ) (req : NamespacedName) (ch : ℕ) (r : Response)
        → s.pc i ≡ Pc.leaving req ch r
        → Step s (after_cancel s i (Pc.finished req r) (cancel req ch s.watcher))

  abbrev pub init : System Q
  init = record {
    stored = λ k. none;
    past = [];
    events = [];
    watcher = record {
      subs = λ k. none;
      channels = λ n. record { buffer = none; closed = false };
      next = 0;
    };
    pc = λ i. Pc.idle;
    crashed = false;
  }

  pub data Reach : System Q → Type 0 where
    start : Reach init
    next : {s t : System Q} → Reach s → Step s t → Reach t

  -- The states that a state can go to.
  pub data From (s : System Q) : System Q → Type 0 where
    here : From s s
    step : {t u : System Q} → From s t → Step t u → From s u

  pub From-Reach : {s t : System Q} → Reach s → From s t → Reach t
  From-Reach r here = r
  From-Reach r (step p one) = next (From-Reach r p) one

  pub later : {s t u : System Q} → From s t → Step t u → From s u
  later p one = step p one
