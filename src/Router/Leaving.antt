-- ===== src/Router/Leaving.antt =====
-- `cancelFunc` of a request that holds its channel: it succeeds, and nobody else loses a channel.
use tensor_fusion_operator.Prelude.{
  refl, Option, none, ◌∙◌, ap, sym, ℕ, arith, true, not, ◌&&◌, List, some, ◌≡◌, ◌≢◌, inl, inr, eqb,
  Bool-cases,
}
use tensor_fusion_operator.Api.{NamespacedName}
use tensor_fusion_operator.Router.{
  cancel, Channel, ConnectionWatcher, members, nonempty, same_name, set_at, set_name, without,
}
use tensor_fusion_operator.Router.System.{Pc}
use tensor_fusion_operator.Router.Invariant.{Holding, has, owns}
use tensor_fusion_operator.Router.Steps.{
  close-open, set_at-cases, set_name-cases, has-without, has-nonempty, nonempty-solid, same_name-eq,
  same_name_refl,
}

module _ {Q : Type 0} (i : ℕ) (req : NamespacedName) (ch : ℕ) (gone : Pc) (cw : ConnectionWatcher Q)
    (pc : ℕ → Pc) (h : Holding cw pc) (mine : owns (pc i) ≡ some (req, ch))
    (free : owns gone ≡ none) (set : List ℕ) (found : cw.subs req ≡ some set) where
  left : ConnectionWatcher Q
  left = record {
    subs = set_name cw.subs req (nonempty (without ch set));
    channels = set_at cw.channels ch (record (cw.channels ch) { closed = true });
    next = cw.next;
  }

  own :
      (j : ℕ) (k : NamespacedName) (c : ℕ)
      → owns (set_at pc i gone j) ≡ some (k, c)
      → (i ≢ j) × (owns (pc j) ≡ some (k, c)) × (ch ≢ c)
  own j k c q = elim (set_at-cases pc i gone j) [
    | inl (e, r) ↦ absurd (cc)
    | inr (e, r) ↦
        (e, sym (ap owns r) ∙ q, λ t. e (h.apart i j req k ch mine (rw t (sym (ap owns r) ∙ q))))
  ]

  has-left :
      (k : NamespacedName) (c : ℕ)
      → has c (members (left.subs k))
        ≡ (not (same_name req k && eqb ch c) && has c (members (cw.subs k)))
  unfolding left
  has-left k c = elim (Bool-cases (same_name req k)) [
    | inl e ↦
        let f = sym (ap cw.subs (same_name-eq req k e)) ∙ found in
        rw (e, f) (has-nonempty c (without ch set) ∙ has-without c ch set)
    | inr e ↦ rw e
  ]

  left-Holding : Holding left (set_at pc i gone)
  unfolding left
  left-Holding = record {
    held = λ j k c q.
        let (a, b, d) = own j k c q in has-left k c ∙ ground (arith, h.held j k c b, has-left k c);
    owned = λ k c q.
        let (j, r) = h.owned k c (ground (arith, has-left k c)) in
        elim (set_at-cases pc i gone j) [
          | inl (e, t) ↦
              let f : some (req, ch) ≡ some (k, c) = sym mine ∙ ap (λ n. owns (pc n)) e ∙ r in
              let g : req ≡ k = cc in
              absurd (ground (arith, has-left k c, ap (same_name req) g, same_name_refl req))
          | inr (e, t) ↦ (j, ap owns t ∙ r)
        ];
    apart = λ j l k m c q r.
        let (a, b, d) = own j k c q in let (e, f, g) = own l m c r in h.apart j l k m c b f;
    open_channel = λ j k c q.
        let (a, b, d) = own j k c q in
        elim (set_at-cases cw.channels ch (record (cw.channels ch) { closed = true }) c) [
          | inl (e, t) ↦ absurd (d e)
          | inr (e, t) ↦ ap (λ (x : Channel Q). x.closed) t ∙ h.open_channel j k c b
        ];
    below = λ j k c q. let (a, b, d) = own j k c q in h.below j k c b;
    solid = λ k q. elim (set_name-cases cw.subs req (nonempty (without ch set)) k) [
      | inl (e, t) ↦ nonempty-solid (without ch set) (sym t ∙ q)
      | inr (e, t) ↦ h.solid k (sym t ∙ q)
    ];
  }

  left-buffer : (n : ℕ) → (left.channels n).buffer ≡ (cw.channels n).buffer
  unfolding left
  left-buffer n = elim (set_at-cases cw.channels ch (record (cw.channels ch) { closed = true }) n) [
    | inl (e, t) ↦ ap (λ (x : Channel Q). x.buffer) t ∙ ap (λ m. (cw.channels m).buffer) e
    | inr (e, t) ↦ ap (λ (x : Channel Q). x.buffer) t
  ]

  cancel-left : cancel req ch cw ≡ some left
  unfolding cancel left
  cancel-left = rw (found, cancel, close-open ch cw.channels (h.open_channel i req ch mine)) refl

members-found :
    (o : Option (List ℕ)) (ch : ℕ) → has ch (members o) ≡ true → (set : List ℕ) × (o ≡ some set)
members-found none ch e = absurd (cc)
members-found (some set) ch e = (set, refl)

pub cancel-Holding :
    {Q : Type 0} (i : ℕ) (req : NamespacedName) (ch : ℕ) (gone : Pc) (cw : ConnectionWatcher Q)
    (pc : ℕ → Pc)
    → Holding cw pc
    → owns (pc i) ≡ some (req, ch)
    → owns gone ≡ none
    → (dw : ConnectionWatcher Q) × (cancel req ch cw ≡ some dw)
      × Holding dw (set_at pc i gone)
      × ((n : ℕ) → (dw.channels n).buffer ≡ (cw.channels n).buffer)
cancel-Holding i req ch gone cw pc h mine free =
    let (set, found) = members-found (cw.subs req) ch (h.held i req ch mine) in
    (
      left i req ch gone cw pc h mine free set found,
      cancel-left i req ch gone cw pc h mine free set found,
      left-Holding i req ch gone cw pc h mine free set found,
      left-buffer i req ch gone cw pc h mine free set found,
    )
