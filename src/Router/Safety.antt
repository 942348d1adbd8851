-- ===== src/Router/Safety.antt =====
-- Every reachable state satisfies the invariant, and what follows from it.
use tensor_fusion_operator.Prelude.{
  none, Option-cases, ◌∙◌, ap, sym, ◌↔◌, ℕ, arith, true, false, List, [], ◌∷◌, some, ◌≡◌, ◌≢◌, refl,
  inl, inr,
}
use tensor_fusion_operator.Api.{NamespacedName, TensorFusionConnection}
use tensor_fusion_operator.Router.{
  Channel, ConnectionWatcher, cancel, members, subscribe, fresh_channel,
}
use tensor_fusion_operator.Router.System.{
  Pc, Response, System, Step, Reach, start, next, change, remove, deliver, fail_get, get_running,
  get_other, enter, receive_running, receive_other, exhausted, leave, init, subscribed,
  after_cancel,
}
use tensor_fusion_operator.Router.Invariant.{Holding, Honest, answer_of, has, owns}
use tensor_fusion_operator.Router.Steps.{set_at-cases, subscribe-Holding}
use tensor_fusion_operator.Router.Leaving.{cancel-Holding}
use tensor_fusion_operator.Router.Keeping.{
  Inv, Sound-kept, Stored-Honest, answer-moved, change-Inv, deliver-Inv, moved-Inv, received-Inv,
  remove-Inv,
}

module _ {Q : Type 0} where
  init-Inv : Inv (init {Q = Q})
  init-Inv = record {
    holding = record {
      held = λ i k ch q. absurd (cc);
      owned = λ k ch q. absurd (cc);
      apart = λ i j k l ch q r. absurd (cc);
      open_channel = λ i k ch q. refl;
      below = λ i k ch q. absurd (cc);
      solid = λ k q. cc;
    };
    sound = record {
      kept = λ k c q. absurd (cc);
      queued = λ c q. q;
      carried = λ i k ch c q r. absurd (cc);
      honest = λ i k r q. absurd (cc);
    };
    alive = refl;
  }

  enter-Inv :
      (s : System Q) (i : ℕ) (req : NamespacedName)
      → s.pc i ≡ Pc.fetched req
      → Inv s
      → Inv (subscribed s i req)
  unfolding subscribe
  enter-Inv s i req h inv = record {
    holding = subscribe-Holding i req s.watcher s.pc inv.holding (ap owns h);
    sound =
        Sound-kept _ inv.sound refl (λ k c q. q) inv.sound.queued
          (λ j k ch c q r. elim (set_at-cases s.watcher.channels s.watcher.next fresh_channel ch) [
            | inl (e, t) ↦ absurd (cc)
            | inr (e, t) ↦ elim (set_at-cases s.pc i (Pc.waiting req s.watcher.next) j) [
              | inl (f, u) ↦ absurd (e cc)
              | inr (f, u) ↦
                  inv.sound.carried j k ch c (sym (ap owns u) ∙ q)
                    (sym (ap (λ (x : Channel Q). x.buffer) t) ∙ r)
            ]
          ])
          (answer-moved s.past s.pc i _ (λ k r q. absurd (cc)));
    alive = inv.alive;
  }

  leave-Inv :
      (s : System Q) (i : ℕ) (req : NamespacedName) (ch : ℕ) (r : Response)
      → s.pc i ≡ Pc.leaving req ch r
      → Inv s
      → Inv (after_cancel s i (Pc.finished req r) (cancel req ch s.watcher))
  leave-Inv s i req ch r h inv =
      let (dw, done, hold, same) =
        cancel-Holding i req ch (Pc.finished req r) s.watcher s.pc inv.holding (ap owns h) refl in
      rw done (record {
        holding = hold;
        sound =
            Sound-kept _ inv.sound refl (λ k c q. q) inv.sound.queued
              (λ j k n c q t. elim (set_at-cases s.pc i (Pc.finished req r) j) [
                | inl (e, u) ↦ absurd (cc)
                | inr (e, u) ↦ inv.sound.carried j k n c (sym (ap owns u) ∙ q) (sym (same n) ∙ t)
              ])
              (answer-moved s.past s.pc i _ (λ k t q. inv.sound.honest i k t (ap answer_of h ∙ q)));
        alive = inv.alive;
      })

  only-Honest :
      (past : List (TensorFusionConnection Q)) (req : NamespacedName) (answer : Response)
      → Honest past req answer
      → (k : NamespacedName) (r : Response) → answer_of (Pc.finished req answer) ≡ some (k, r)
      → Honest past k r
  only-Honest past req answer h k r q =
      let e : req ≡ k = cc in let f : answer ≡ r = cc in rw (← e, ← f) h

  Step-Inv : {s t : System Q} → Step s t → Inv s → Inv t
  Step-Inv {s} (change c) inv = change-Inv s c inv
  Step-Inv {s} (remove c h) inv = remove-Inv s c h inv
  Step-Inv {s} (deliver c rest h) inv = deliver-Inv s c rest h inv
  Step-Inv {s} (fail_get i req h) inv =
      moved-Inv s i _ inv (sym (ap owns h)) (only-Honest s.past req Response.missing tt)
  Step-Inv {s} (get_running i req c h found r) inv =
      moved-Inv s i _ inv (sym (ap owns h))
        (only-Honest s.past req _ (Stored-Honest s.past req c (inv.sound.kept req c found) r))
  Step-Inv {s} (get_other i req c h found r) inv =
      moved-Inv s i _ inv (sym (ap owns h)) (λ k t q. absurd (cc))
  Step-Inv {s} (enter i req h) inv = enter-Inv s i req h inv
  Step-Inv {s} (receive_running i req ch c h full r) inv =
      received-Inv s i ch _ inv (sym (ap owns h)) (
        only-Honest s.past req _
          (Stored-Honest s.past req c (inv.sound.carried i req ch c (ap owns h) full) r))
  Step-Inv {s} (receive_other i req ch c h full r) inv =
      received-Inv s i ch _ inv (sym (ap owns h)) (λ k t q. absurd (cc))
  Step-Inv {s} (exhausted i req ch h empty closed) inv =
      absurd (ground (arith, inv.holding.open_channel i req ch (ap owns h)))
  Step-Inv {s} (leave i req ch r h) inv = leave-Inv s i req ch r h inv

  pub Reach-Inv : {s : System Q} → Reach s → Inv s
  Reach-Inv start = init-Inv
  Reach-Inv (next r st) = Step-Inv st (Reach-Inv r)

  first-member :
      {cw : ConnectionWatcher Q} {pc : ℕ → Pc}
      → Holding cw pc
      → (k : NamespacedName) (set : List ℕ) → cw.subs k ≡ some set
      → (i : ℕ) × (ch : ℕ) × (owns (pc i) ≡ some (k, ch))
  first-member h k [] e = absurd (h.solid k e)
  first-member h k (ch ∷ set) e = let (i, t) = h.owned k ch (rw e (ground arith)) in (i, ch, t)

  -- However the requests, the API server and the watcher are interleaved, no goroutine panics: nobody
  -- sends on a closed channel or closes one twice.
  pub never_crashes : {s : System Q} → Reach s → s.crashed ≡ false
  never_crashes r = let h = Reach-Inv r in h.alive

  -- In every reachable state, the answer of a request is 404 or the URL that some version of its
  -- connection had while it ran; the loop over the channel never ends without an answer.
  pub answer_of-Honest :
      {s : System Q}
      → Reach s
      → (i : ℕ) (k : NamespacedName) (r : Response) → answer_of (s.pc i) ≡ some (k, r)
      → Honest s.past k r
  answer_of-Honest r i k a q = let h = Reach-Inv r in h.sound.honest i k a q

  -- In every reachable state, the channels subscribed under a key are those that a waiting or leaving
  -- request holds, each held by one request; a key that no request holds a channel under is not in the map.
  pub no_leaks :
      {s : System Q}
      → Reach s
      → (k : NamespacedName)
      → ((ch : ℕ)
          → (has ch (members (s.watcher.subs k)) ≡ true)
            ↔ ((i : ℕ) × (owns (s.pc i) ≡ some (k, ch))))
        × (((i ch : ℕ) → owns (s.pc i) ≢ some (k, ch)) → s.watcher.subs k ≡ none)
  no_leaks {s} r k =
      let inv = Reach-Inv r in
      let h = inv.holding in
      (
        λ ch. (λ q. h.owned k ch q, λ t. h.held t.0 k ch t.1),
        λ nobody. elim (Option-cases (s.watcher.subs k)) [
          | inl e ↦ e
          | inr (set, e) ↦ let (i, ch, t) = first-member h k set e in absurd (nobody i ch t)
        ],
      )
