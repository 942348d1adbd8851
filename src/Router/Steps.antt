-- ===== src/Router/Steps.antt =====
-- The operations of the watcher keep the holding of channels.
use tensor_fusion_operator.Router.System.{Pc}
use tensor_fusion_operator.Prelude.{
  none, ◌||◌, Option-cases, ◌∙◌, ap, sym, ℕ, arith, true, false, not, ◌&&◌, List, [], ◌∷◌, some,
  ◌≡◌, ◌≢◌, refl, ◌⊎◌, inl, inr, eqb, eq_iff, Bool-cases,
}
use tensor_fusion_operator.Api.{TensorFusionConnection, NamespacedName}
use tensor_fusion_operator.Router.{
  offer, send_all, subscribe, ConnectionWatcher, Channel, close, members, nonempty, same_name,
  set_at, set_name, without,
}
use tensor_fusion_operator.Router.Invariant.{Holding, owns, has}

pub set_at-cases :
    {A : Type 0} (f : ℕ → A) (n : ℕ) (a : A) (m : ℕ)
    → ((n ≡ m) × (set_at f n a m ≡ a)) ⊎ ((n ≢ m) × (set_at f n a m ≡ f m))
set_at-cases f n a m = ground arith

pub same_name-eq : (a b : NamespacedName) → same_name a b ≡ true → a ≡ b
same_name-eq a b h =
    let p : a.name ≡ b.name = ground (arith, eq_iff a.name b.name) in
    let q : a.namespace ≡ b.namespace =
      ground (arith, eq_iff a.name b.name, eq_iff a.namespace b.namespace) in
    λ i. record { name = p i; namespace = q i }

pub same_name_refl : (a : NamespacedName) → same_name a a ≡ true
same_name_refl a = ground (arith, eq_iff a.name a.name, eq_iff a.namespace a.namespace)

pub set_name-cases :
    {A : Type 0} (f : NamespacedName → A) (k : NamespacedName) (a : A) (j : NamespacedName)
    → ((k ≡ j) × (set_name f k a j ≡ a)) ⊎ ((k ≢ j) × (set_name f k a j ≡ f j))
set_name-cases f k a j = elim (Bool-cases (same_name k j)) [
  | inl h ↦ inl (same_name-eq k j h, rw h)
  | inr h ↦ inr (λ e. cc (same_name_refl k), rw h)
]

pub has-without : (m ch : ℕ) (set : List ℕ) → has m (without ch set) ≡ (not (eqb ch m) && has m set)
has-without m ch [] = ground arith
has-without m ch (n ∷ set) = ground (arith, has-without m ch set)

pub has-nonempty : (m : ℕ) (set : List ℕ) → has m (members (nonempty set)) ≡ has m set
has-nonempty m [] = refl
has-nonempty m (n ∷ set) = refl

pub nonempty-solid : (set : List ℕ) → nonempty set ≢ some []
nonempty-solid [] e = cc
nonempty-solid (n ∷ set) e = cc

module _ {Q : Type 0} where
  pub close-open :
      (ch : ℕ) (channels : ℕ → Channel Q)
      → (channels ch).closed ≡ false
      → close ch channels ≡ some (set_at channels ch (record (channels ch) { closed = true }))
  unfolding close
  close-open ch channels h = rw h

  -- What a send to a set of channels leaves: no channel closed or opened, and a new element only where
  -- it was sent.
  pub record Sent (conn : TensorFusionConnection Q) (set : List ℕ) (old new : ℕ → Channel Q)
      : Type 0 where
    pub same : (n : ℕ) → (new n).closed ≡ (old n).closed
    pub fed :
        (n : ℕ) (c : TensorFusionConnection Q)
        → (new n).buffer ≡ some c
        → ((old n).buffer ≡ some c) ⊎ ((has n set ≡ true) × (c ≡ conn))
    pub full :
        (n : ℕ) (c : TensorFusionConnection Q) → (old n).buffer ≡ some c → (new n).buffer ≡ some c
    pub reached : (n : ℕ) → has n set ≡ true → (old n).buffer ≡ none → (new n).buffer ≡ some conn

  offer-open :
      (conn : TensorFusionConnection Q) (c : Channel Q)
      → c.closed ≡ false
      → (d : Channel Q) × (offer conn c ≡ some d)
        × (d.closed ≡ c.closed)
        × ((e : TensorFusionConnection Q) → d.buffer ≡ some e → (c.buffer ≡ some e) ⊎ (e ≡ conn))
        × ((e : TensorFusionConnection Q) → c.buffer ≡ some e → d.buffer ≡ some e)
        × (c.buffer ≡ none → d.buffer ≡ some conn)
  unfolding offer
  offer-open conn c h = elim (Option-cases c.buffer) [
    | inl q ↦ (
      record c { buffer = some conn },
      ground arith,
      refl,
      λ e r. inr cc,
      λ e r. absurd (cc),
      λ r. refl,
    )
    | inr (old, q) ↦ (c, ground arith, refl, λ e r. inl r, λ e r. r, λ r. absurd (cc))
  ]

  send_all-next :
      (conn : TensorFusionConnection Q) (ch : ℕ) (set : List ℕ) (channels : ℕ → Channel Q)
      (d : Channel Q)
      → offer conn (channels ch) ≡ some d
      → send_all conn (ch ∷ set) channels ≡ send_all conn set (set_at channels ch d)
  unfolding send_all
  send_all-next conn ch set channels d h = rw (h, send_all)

  pub send_all-Sent :
      (conn : TensorFusionConnection Q) (set : List ℕ) (channels : ℕ → Channel Q)
      → ((n : ℕ) → has n set ≡ true → (channels n).closed ≡ false)
      → (new : ℕ → Channel Q) × (send_all conn set channels ≡ some new) × Sent conn set channels new
  unfolding send_all
  send_all-Sent conn [] channels ready = (
    channels,
    refl,
    record {
      same = λ n. refl;
      fed = λ n c h. inl h;
      full = λ n c h. h;
      reached = λ n h. absurd (cc);
    },
  )
  send_all-Sent conn (ch ∷ set) channels ready =
      let (d, given, closed, fed, full, reached) =
        offer-open conn (channels ch) (ready ch (ground arith)) in
      let next = set_at channels ch d in
      let still : (n : ℕ) → (next n).closed ≡ (channels n).closed = λ n.
        elim (set_at-cases channels ch d n) [
          | inl (e, q) ↦
              ap (λ (x : Channel Q). x.closed) q ∙ closed ∙ ap (λ m. (channels m).closed) e
          | inr (e, q) ↦ ap (λ (x : Channel Q). x.closed) q
        ] in
      let (new, sent, s) = send_all-Sent conn set next (λ n h. still n ∙ ready n (ground arith)) in
      (
        new,
        send_all-next conn ch set channels d given ∙ sent,
        record {
          same = λ n. s.same n ∙ still n;
          fed = λ n c h. elim (s.fed n c h) [
            | inl q ↦ elim (set_at-cases channels ch d n) [
              | inl (e, r) ↦ elim (fed c (sym (ap (λ (x : Channel Q). x.buffer) r) ∙ q)) [
                | inl t ↦ inl (sym (ap (λ m. (channels m).buffer) e) ∙ t)
                | inr t ↦ inr (ground arith, t)
              ]
              | inr (e, r) ↦ inl (sym (ap (λ (x : Channel Q). x.buffer) r) ∙ q)
            ]
            | inr (q, r) ↦ inr (ground arith, r)
          ];
          full = λ n c h. s.full n c (elim (set_at-cases channels ch d n) [
            | inl (e, r) ↦
                ap (λ (x : Channel Q). x.buffer) r ∙ full c (ap (λ m. (channels m).buffer) e ∙ h)
            | inr (e, r) ↦ ap (λ (x : Channel Q). x.buffer) r ∙ h
          ]);
          reached = λ n h q. elim (set_at-cases channels ch d n) [
            | inl (e, r) ↦
                s.full n conn (
                  ap (λ (x : Channel Q). x.buffer) r
                  ∙ reached (ap (λ m. (channels m).buffer) e ∙ q))
            | inr (e, r) ↦ s.reached n (ground arith) (ap (λ (x : Channel Q). x.buffer) r ∙ q)
          ];
        },
      )

  -- A step that keeps every holder, every subscription and every open channel.
  pub Holding-kept :
      {cw dw : ConnectionWatcher Q} {pc qc : ℕ → Pc}
      → Holding cw pc
      → dw.subs ≡ cw.subs
      → dw.next ≡ cw.next
      → ((n : ℕ) → (dw.channels n).closed ≡ (cw.channels n).closed)
      → ((i : ℕ) → owns (qc i) ≡ owns (pc i))
      → Holding dw qc
  Holding-kept {cw} {dw} h subs next closed own = record {
    held = λ i k ch q. ap (λ f. has ch (members (f k))) subs ∙ h.held i k ch (sym (own i) ∙ q);
    owned = λ k ch q.
        let (i, r) = h.owned k ch (sym (ap (λ f. has ch (members (f k))) subs) ∙ q) in
        (i, own i ∙ r);
    apart = λ i j k l ch q r. h.apart i j k l ch (sym (own i) ∙ q) (sym (own j) ∙ r);
    open_channel = λ i k ch q. closed ch ∙ h.open_channel i k ch (sym (own i) ∙ q);
    below = λ i k ch q. omega (arith, next, h.below i k ch (sym (own i) ∙ q));
    solid = λ k q. h.solid k (sym (ap (λ f. f k) subs) ∙ q);
  }

  has-subscribed :
      (req : NamespacedName) (cw : ConnectionWatcher Q) (k : NamespacedName) (ch : ℕ)
      → has ch (members ((subscribe req cw).1.subs k))
        ≡ ((same_name req k && eqb ch cw.next) || has ch (members (cw.subs k)))
  unfolding subscribe
  has-subscribed req cw k ch = elim (Bool-cases (same_name req k)) [
    | inl h ↦
        let e = ap (λ r. members (cw.subs r)) (same_name-eq req k h) in rw (h, e) (ground arith)
    | inr h ↦ rw h
  ]

  pub subscribe-Holding :
      (i : ℕ) (req : NamespacedName) (cw : ConnectionWatcher Q) (pc : ℕ → Pc)
      → Holding cw pc
      → owns (pc i) ≡ none
      → Holding (subscribe req cw).1 (set_at pc i (Pc.waiting req cw.next))
  unfolding subscribe
  subscribe-Holding i req cw pc h free =
      let own : (j : ℕ) (k : NamespacedName) (ch : ℕ)
          → owns (set_at pc i (Pc.waiting req cw.next) j) ≡ some (k, ch)
          → ((i ≡ j) × (req ≡ k) × (cw.next ≡ ch)) ⊎ ((i ≢ j) × (owns (pc j) ≡ some (k, ch))) =
        λ j k ch q. elim (set_at-cases pc i (Pc.waiting req cw.next) j) [
          | inl (e, r) ↦ inl (e, cc, cc)
          | inr (e, r) ↦ inr (e, sym (ap owns r) ∙ q)
        ] in
      record {
        held = λ j k ch q. has-subscribed req cw k ch ∙ elim (own j k ch q) [
          | inl (e, r, t) ↦ rw (sym r, sym t) (ground (arith, same_name_refl req))
          | inr (e, r) ↦ ground (arith, h.held j k ch r)
        ];
        owned = λ k ch q. elim (Bool-cases (has ch (members (cw.subs k)))) [
          | inl old ↦
              let (j, r) = h.owned k ch old in
              elim (set_at-cases pc i (Pc.waiting req cw.next) j) [
                | inl (e, _) ↦ absurd (cc)
                | inr (e, t) ↦ (j, ap owns t ∙ r)
              ]
          | inr new ↦
              let b = sym (has-subscribed req cw k ch) ∙ q in
              let e : req ≡ k = same_name-eq req k (ground arith) in
              let f : cw.next ≡ ch = ground arith in
              (
                i,
                elim (set_at-cases pc i (Pc.waiting req cw.next) i) [
                  | inl (_, t) ↦ ap owns t ∙ rw (e, f) refl
                  | inr (d, _) ↦ absurd (d refl)
                ],
              )
        ];
        apart = λ j j' k l ch q r. elim (own j k ch q) [
          | inl (a, b, c) ↦ elim (own j' l ch r) [
            | inl (d, e, f) ↦ sym a ∙ d
            | inr (d, e) ↦ absurd (omega (arith, c, h.below j' l ch e))
          ]
          | inr (a, b) ↦ elim (own j' l ch r) [
            | inl (d, e, f) ↦ absurd (omega (arith, f, h.below j k ch b))
            | inr (d, e) ↦ h.apart j j' k l ch b e
          ]
        ];
        open_channel = λ j k ch q. elim (own j k ch q) [
          | inl (a, b, c) ↦ ground arith
          | inr (a, b) ↦ ground (arith, h.open_channel j k ch b)
        ];
        below = λ j k ch q. elim (own j k ch q) [
          | inl (a, b, c) ↦ omega (arith, c)
          | inr (a, b) ↦ omega (arith, h.below j k ch b)
        ];
        solid = λ k q.
            elim (set_name-cases cw.subs req (some (cw.next ∷ members (cw.subs req))) k) [
              | inl (a, b) ↦ cc
              | inr (a, b) ↦ h.solid k (sym b ∙ q)
            ];
      }
