-- ===== src/Router/Keeping.antt =====
-- What each kind of step does to the invariant.
use tensor_fusion_operator.Prelude.{
  none, ◌∙◌, ap, sym, ℕ, true, false, List, [], ◌∷◌, ◌++◌, some, ◌≡◌, refl, ◌⊎◌, inl, inr, Any,
}
use tensor_fusion_operator.Api.{NamespacedName, TensorFusionConnection}
use tensor_fusion_operator.Router.{
  Channel, ConnectionWatcher, members, name_of, set_at, set_name, publish, runs, send_all,
}
use tensor_fusion_operator.Router.System.{Pc, Response, System, received, moved, after_publish}
use tensor_fusion_operator.Router.Invariant.{Holding, Honest, Stored, Sound, answer_of, owns}
use tensor_fusion_operator.Router.Steps.{
  Sent, set_at-cases, set_name-cases, Holding-kept, send_all-Sent,
}

pub record Inv {Q : Type 0} (s : System Q) : Type 0 where
  pub holding : Holding s.watcher s.pc
  pub sound : Sound s
  pub alive : s.crashed ≡ false

owns-moved :
    (pc : ℕ → Pc) (i : ℕ) (p : Pc)
    → owns p ≡ owns (pc i)
    → (j : ℕ) → owns (set_at pc i p j) ≡ owns (pc j)
owns-moved pc i p h j = elim (set_at-cases pc i p j) [
  | inl (e, t) ↦ ap owns t ∙ h ∙ ap (λ n. owns (pc n)) e
  | inr (e, t) ↦ ap owns t
]

module _ {Q : Type 0} where
  pub answer-moved :
      (past : List (TensorFusionConnection Q)) (pc : ℕ → Pc) (i : ℕ) (p : Pc)
      → ((k : NamespacedName) (r : Response) → answer_of p ≡ some (k, r) → Honest past k r)
      → (j : ℕ) (k : NamespacedName) (r : Response) → answer_of (set_at pc i p j) ≡ some (k, r)
      → (answer_of (pc j) ≡ some (k, r)) ⊎ Honest past k r
  answer-moved past pc i p new j k r q = elim (set_at-cases pc i p j) [
    | inl (e, t) ↦ inr (new k r (sym (ap answer_of t) ∙ q))
    | inr (e, t) ↦ inl (sym (ap answer_of t) ∙ q)
  ]

  Any-append :
      (P : TensorFusionConnection Q → Type 0) (xs ys : List (TensorFusionConnection Q))
      → Any P (xs ++ ys)
      → Any P xs ⊎ Any P ys
  Any-append P [] ys h = inr h
  Any-append P (x ∷ xs) ys (inl h) = inl (inl h)
  Any-append P (x ∷ xs) ys (inr h) = elim (Any-append P xs ys h) [
    | inl a ↦ inl (inr a)
    | inr b ↦ inr b
  ]

  -- A step that stores no new version.
  pub Sound-kept :
      {s : System Q} (t : System Q)
      → Sound s
      → t.past ≡ s.past
      → ((k : NamespacedName) (c : TensorFusionConnection Q)
          → t.stored k ≡ some c
          → s.stored k ≡ some c)
      → ((c : TensorFusionConnection Q) → Any (λ d. d ≡ c) t.events → Stored s.past c)
      → ((i : ℕ) (k : NamespacedName) (ch : ℕ) (c : TensorFusionConnection Q)
          → owns (t.pc i) ≡ some (k, ch)
          → (t.watcher.channels ch).buffer ≡ some c
          → (name_of c ≡ k) × Stored s.past c)
      → ((i : ℕ) (k : NamespacedName) (r : Response)
          → answer_of (t.pc i) ≡ some (k, r)
          → (answer_of (s.pc i) ≡ some (k, r)) ⊎ Honest s.past k r)
      → Sound t
  Sound-kept {s} t h past stored events carried answers = record {
    kept = λ k c q. rw past (h.kept k c (stored k c q));
    queued = λ c q. rw past (events c q);
    carried = λ i k ch c q r. rw past (carried i k ch c q r);
    honest = λ i k r q.
        rw past (elim (answers i k r q) [ inl old ↦ h.honest i k r old | inr new ↦ new ]);
  }

  -- A request moves on without subscribing, and its answer, if any, is honest.
  pub moved-Inv :
      (s : System Q) (i : ℕ) (p : Pc)
      → Inv s
      → owns p ≡ owns (s.pc i)
      → ((k : NamespacedName) (r : Response) → answer_of p ≡ some (k, r) → Honest s.past k r)
      → Inv (moved s i p)
  moved-Inv s i p inv same new = record {
    holding = Holding-kept inv.holding refl refl (λ n. refl) (owns-moved s.pc i p same);
    sound =
        Sound-kept _ inv.sound refl (λ k c q. q) inv.sound.queued
          (λ j k ch c q. inv.sound.carried j k ch c (sym (owns-moved s.pc i p same j) ∙ q))
          (answer-moved s.past s.pc i p new);
    alive = inv.alive;
  }

  -- A request takes the element of its channel.
  pub received-Inv :
      (s : System Q) (i ch : ℕ) (p : Pc)
      → Inv s
      → owns p ≡ owns (s.pc i)
      → ((k : NamespacedName) (r : Response) → answer_of p ≡ some (k, r) → Honest s.past k r)
      → Inv (received s i ch p)
  received-Inv s i ch p inv same new =
      let old = s.watcher.channels in
      let empty : Channel Q = record (old ch) { buffer = none } in
      record {
        holding =
            Holding-kept inv.holding refl refl
              (λ n. elim (set_at-cases old ch empty n) [
                | inl (e, t) ↦ ap (λ (x : Channel Q). x.closed) t ∙ ap (λ m. (old m).closed) e
                | inr (e, t) ↦ ap (λ (x : Channel Q). x.closed) t
              ])
              (owns-moved s.pc i p same);
        sound =
            Sound-kept _ inv.sound refl (λ k c q. q) inv.sound.queued
              (λ j k n c q r. elim (set_at-cases old ch empty n) [
                | inl (e, t) ↦ absurd (cc)
                | inr (e, t) ↦
                    inv.sound.carried j k n c (sym (owns-moved s.pc i p same j) ∙ q)
                      (sym (ap (λ (x : Channel Q). x.buffer) t) ∙ r)
              ])
              (answer-moved s.past s.pc i p new);
        alive = inv.alive;
      }

  Honest-grow :
      (past : List (TensorFusionConnection Q)) (c : TensorFusionConnection Q) (k : NamespacedName)
      (r : Response)
      → Honest past k r
      → Honest (c ∷ past) k r
  Honest-grow past c k Response.missing h = tt
  Honest-grow past c k (Response.url u) h = inr h
  Honest-grow past c k Response.silent h = h

  -- A version that is stored and runs gives an honest URL.
  pub Stored-Honest :
      (past : List (TensorFusionConnection Q)) (k : NamespacedName) (c : TensorFusionConnection Q)
      → (name_of c ≡ k) × Stored past c
      → runs c ≡ true
      → Honest past k (Response.url c.status.connection_url)
  Stored-Honest [] k c (e, h) r = h
  Stored-Honest (d ∷ past) k c (e, inl q) r = inl (rw q (e, (r, refl)))
  Stored-Honest (d ∷ past) k c (e, inr q) r = inr (Stored-Honest past k c (e, q) r)

  pub change-Inv :
      (s : System Q) (c : TensorFusionConnection Q)
      → Inv s
      → Inv (record s {
        stored = set_name s.stored (name_of c) (some c);
        past = c ∷ s.past;
        events = s.events ++ c ∷ [];
      })
  change-Inv s c inv = record {
    holding = inv.holding;
    sound = record {
      kept = λ k d q. elim (set_name-cases s.stored (name_of c) (some c) k) [
        | inl (e, t) ↦ let f : c ≡ d = cc in (sym (ap name_of f) ∙ e, inl f)
        | inr (e, t) ↦ let (a, b) = inv.sound.kept k d (sym t ∙ q) in (a, inr b)
      ];
      queued = λ d q. elim (Any-append (λ x. x ≡ d) s.events (c ∷ []) q) [
        | inl a ↦ inr (inv.sound.queued d a)
        | inr (inl e) ↦ inl e
        | inr (inr e) ↦ absurd e
      ];
      carried = λ i k ch d q r. let (a, b) = inv.sound.carried i k ch d q r in (a, inr b);
      honest = λ i k r q. Honest-grow s.past c k r (inv.sound.honest i k r q);
    };
    alive = inv.alive;
  }

  pub remove-Inv :
      (s : System Q) (c : TensorFusionConnection Q)
      → s.stored (name_of c) ≡ some c
      → Inv s
      → Inv (record s { stored = set_name s.stored (name_of c) none; events = s.events ++ c ∷ [] })
  remove-Inv s c h inv = record {
    holding = inv.holding;
    sound =
        Sound-kept _ inv.sound refl
          (λ k d q. elim (set_name-cases s.stored (name_of c) none k) [
            | inl (e, t) ↦ absurd (cc)
            | inr (e, t) ↦ sym t ∙ q
          ])
          (λ d q. elim (Any-append (λ x. x ≡ d) s.events (c ∷ []) q) [
            | inl a ↦ inv.sound.queued d a
            | inr (inl e) ↦ let (a, b) = inv.sound.kept (name_of c) c h in rw (← e) b
            | inr (inr e) ↦ absurd e
          ])
          inv.sound.carried (λ i k r q. inl q);
    alive = inv.alive;
  }

  publish-sent :
      (conn : TensorFusionConnection Q) (cw : ConnectionWatcher Q) (new : ℕ → Channel Q)
      → send_all conn (members (cw.subs (name_of conn))) cw.channels ≡ some new
      → publish conn cw ≡ some (record cw { channels = new })
  unfolding publish
  publish-sent conn cw new h = rw (h, publish)

  pub publish-Sent :
      (s : System Q) (c : TensorFusionConnection Q)
      → Inv s
      → (new : ℕ → Channel Q) × (publish c s.watcher ≡ some (record (s.watcher) { channels = new }))
        × Sent c (members (s.watcher.subs (name_of c))) s.watcher.channels new
  publish-Sent s c inv =
      let cw = s.watcher in
      let (new, sent, all) = send_all-Sent c (members (cw.subs (name_of c))) cw.channels (λ n q.
        let (i, r) = inv.holding.owned (name_of c) n q in
        inv.holding.open_channel i (name_of c) n r) in
      (new, publish-sent c cw new sent, all)

  pub deliver-Inv :
      (s : System Q) (c : TensorFusionConnection Q) (rest : List (TensorFusionConnection Q))
      → s.events ≡ c ∷ rest
      → Inv s
      → Inv (after_publish s rest (publish c s.watcher))
  deliver-Inv s c rest h inv =
      let cw = s.watcher in
      let (new, sent, all) = publish-Sent s c inv in
      rw sent (record {
        holding = Holding-kept inv.holding refl refl all.same (λ i. refl);
        sound =
            Sound-kept _ inv.sound refl (λ k d q. q) (λ d q. inv.sound.queued d (rw h (inr q)))
              (λ i k n d q r. elim (all.fed n d r) [
                | inl old ↦ inv.sound.carried i k n d q old
                | inr (there, e) ↦
                    let (j, t) = inv.holding.owned (name_of c) n there in
                    let same = inv.holding.apart i j k (name_of c) n q t in
                    let keys : some (k, n) ≡ some (name_of c, n) =
                      sym q ∙ ap (λ m. owns (s.pc m)) same ∙ t in
                    let key : name_of c ≡ k = cc in
                    (ap name_of e ∙ key, rw e (inv.sound.queued c (rw h (inl refl))))
              ])
              (λ i k r q. inl q);
        alive = inv.alive;
      })
