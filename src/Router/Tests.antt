-- ===== src/Router/Tests.antt =====
-- The theorems of the connection router at concrete runs: a connection appears, a request finds that it
-- does not run yet, waits, and the connection starts to run.
use tensor_fusion_operator.Prelude.{ℕ, ◌≡◌, ◌≢◌, ◌↔◌, refl, none, some, true, false, [], ◌∷◌}
use tensor_fusion_operator.Prelude.Int.{ℤ}
use tensor_fusion_operator.Api.{NamespacedName, TensorFusionConnection, TensorFusionConnectionPhase}
use tensor_fusion_operator.Samples.{connection_in}
use tensor_fusion_operator.Router.{
  set_name, set_at, members, name_of, offer, publish, send_all, subscribe,
}
use tensor_fusion_operator.Router.System.{
  From, moved, subscribed, Pc, Response, System, Reach, start, next, change, deliver, get_other,
  get_running, enter, init,
}
use tensor_fusion_operator.Router.Invariant.{Honest, has, owns}
use tensor_fusion_operator.Router.Safety.{answer_of-Honest, never_crashes, no_leaks}
use tensor_fusion_operator.Router.Missed.{missed_update, notified}

abbrev pending : TensorFusionConnection ℤ
pending = connection_in TensorFusionConnectionPhase.pending ""

abbrev running : TensorFusionConnection ℤ
running =
    let c = connection_in TensorFusionConnectionPhase.running "gpu-0" in
    record c { status = record (c.status) { connection_url = "native+10.0.0.1+50000" } }

abbrev key : NamespacedName
key = name_of pending

-- The API server has the connection, and request 0 has read it.
abbrev asked : System ℤ
asked = record (init {Q = ℤ}) {
  stored = set_name (λ k. none) key (some pending);
  past = pending ∷ [];
  pc = set_at (λ i. Pc.idle) 0 (Pc.fetched key);
}

asked-Reach : Reach asked
unfolding publish send_all offer
asked-Reach =
    let changed = next start (change pending) in
    let delivered = next changed (deliver pending [] refl) in
    next delivered (get_other 0 key pending refl refl refl)

-- It has subscribed, and then the connection starts to run.
abbrev waits : System ℤ
waits = record (subscribed asked 0 key) {
  stored = set_name asked.stored key (some running);
  past = running ∷ pending ∷ [];
  events = running ∷ [];
}

waits-Reach : Reach waits
waits-Reach = next (next asked-Reach (enter 0 key refl)) (change running)

-- Another request finds that it runs.
abbrev answered : System ℤ
answered = moved waits 1 (Pc.finished key (Response.url running.status.connection_url))

answered-Reach : Reach answered
answered-Reach = next waits-Reach (get_running 1 key running refl refl refl)

never_crashes_example : answered.crashed ≡ false
never_crashes_example = never_crashes answered-Reach

answer_of-Honest_example : Honest answered.past key (Response.url running.status.connection_url)
answer_of-Honest_example =
    answer_of-Honest answered-Reach 1 key (Response.url running.status.connection_url) refl

no_leaks_example :
    ((ch : ℕ)
      → (has ch (members (waits.watcher.subs key)) ≡ true)
        ↔ ((i : ℕ) × (owns (waits.pc i) ≡ some (key, ch))))
    × (((i ch : ℕ) → owns (waits.pc i) ≢ some (key, ch)) → waits.watcher.subs key ≡ none)
no_leaks_example = no_leaks waits-Reach key

notified_example :
    (t : System ℤ) × From waits t
    × (t.pc 0 ≡ Pc.finished key (Response.url running.status.connection_url))
    × (t.past ≡ waits.past)
    × (t.stored ≡ waits.stored)
unfolding subscribe
notified_example = notified waits-Reach 0 0 running [] refl refl refl refl

missed_update_example :
    (t : System ℤ) × From asked t
    × (t.past ≡ running ∷ asked.past)
    × (t.stored key ≡ some running)
    × (t.events ≡ [])
    × (t.pc 0 ≡ Pc.waiting key 0)
    × ((t.watcher.channels 0).buffer ≡ none)
missed_update_example = missed_update asked-Reach 0 running refl refl
