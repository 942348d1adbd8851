-- ===== src/Scheduler/Ledger.antt =====
-- The table against a ledger of the requests that were granted and not yet given back.
use tensor_fusion_operator.Prelude.{
  ◌≡◌, refl, sym, ap, ◌∙◌, inl, inr, String, lookup, lookup-insert, ◌==◌, eq_refl, eq_iff, true,
  false, List, [], ◌∷◌, ◌++◌, some, if◌then◌else◌, arith, Bool-cases, All,
}
use tensor_fusion_operator.Prelude.Int.{ℤ, pos, ◌+ℤ◌, ◌-ℤ◌, ◌≤ℤ◌, int_laws}
use mathlib.Core.Option.{some-injective}
use mathlib.Core.Path.{subst}
use tensor_fusion_operator.Quantity.{Quantity}
use tensor_fusion_operator.Api.{Resource, Gpu}
use tensor_fusion_operator.Scheduler.{NaiveScheduler, fits, deduct, restore, with_available}
use tensor_fusion_operator.Scheduler.Amounts.{
  Dimension, amount, amount-deduct, amount-restore, fits→amount-le,
}
use tensor_fusion_operator.Scheduler.System.{
  System, held, IsNonneg, Step, grant, give_back, Reach, here, next, IsBalanced, Accounted,
}
use tensor_fusion_operator.Scheduler.Grants.{Grant, Returned, release-Returned, schedule-Answers}

granted : (a r h : ℤ) → a -ℤ r +ℤ (r +ℤ h) ≡ a +ℤ h
granted a r h = omega int_laws

sum_nonneg : (a r : ℤ) → pos 0 ≤ℤ a → pos 0 ≤ℤ r → pos 0 ≤ℤ a +ℤ r
sum_nonneg a r h k = omega int_laws

le_of_nonneg : (a h : ℤ) → pos 0 ≤ℤ a → h ≤ℤ a +ℤ h
le_of_nonneg a h p = omega int_laws

given_back : (a r h : ℤ) → a +ℤ r +ℤ h ≡ a +ℤ (r +ℤ h)
given_back a r h = omega int_laws

module _ {Q : Type 0} ⦃q : Quantity Q⦄ where
  held-append :
      (d : Dimension) (k : String) (xs : List (String × Resource Q)) (j : String) (r : Resource Q)
      (ys : List (String × Resource Q))
      → held d k (xs ++ (j, r) ∷ ys)
        ≡ (if j == k then amount d r +ℤ held d k (xs ++ ys) else held d k (xs ++ ys))
  unfolding held
  held-append d k [] j r ys = refl
  held-append d k ((i, x) ∷ xs) j r ys = elim (Bool-cases (j == k)) [
    | inl e ↦ rw e (grind (int_laws, held-append d k xs j r ys))
    | inr e ↦ rw e (grind (int_laws, held-append d k xs j r ys))
  ]

  held_nonneg :
      (d : Dimension) (k : String) (o : List (String × Resource Q))
      → All (λ e. IsNonneg e.1) o
      → pos 0 ≤ℤ held d k o
  unfolding held
  held_nonneg d k [] h = omega arith
  held_nonneg d k ((j, r) ∷ o) h = grind (int_laws, h.0 d, held_nonneg d k o h.1)

  -- The entry that serves a request stays balanced: what it loses is held.
  deducted-IsBalanced :
      (capacity : Dimension → String → ℤ) (o : List (String × Resource Q)) (k : String) (g : Gpu Q)
      (a r : Resource Q)
      → IsBalanced capacity o k g
      → g.status.available ≡ some a
      → fits a r ≡ true
      → IsBalanced capacity ((g.meta.name, r) ∷ o) k (with_available g (deduct a r))
  unfolding held with_available
  deducted-IsBalanced capacity o k g a r b known enough =
      let same : b.available ≡ a = some-injective _ _ (sym b.known ∙ known) in
      record {
        named = b.named;
        available = deduct a r;
        known = refl;
        nonneg = λ d. rw (amount-deduct d a r) (omega (int_laws, fits→amount-le a r enough d));
        balance = λ d.
            rw ((eq_iff g.meta.name k).1 b.named, amount-deduct d a r)
              (granted _ _ _ ∙ ap (λ x. amount d x +ℤ held d k o) (sym same) ∙ b.balance d);
      }

  -- An entry that a new grant does not name is as balanced as before.
  kept-IsBalanced :
      (capacity : Dimension → String → ℤ) (o : List (String × Resource Q)) (j k : String)
      (r : Resource Q) (g : Gpu Q)
      → (j == k) ≡ false
      → IsBalanced capacity o k g
      → IsBalanced capacity ((j, r) ∷ o) k g
  unfolding held
  kept-IsBalanced capacity o j k r g other b = record {
    named = b.named;
    available = b.available;
    known = b.known;
    nonneg = b.nonneg;
    balance = λ d. rw other (b.balance d);
  }

  -- A grant on one entry leaves that entry and every other one balanced.
  Grant-IsBalanced :
      (capacity : Dimension → String → ℤ) (s : System Q) (s' : NaiveScheduler Q) (r : Resource Q)
      (g : Gpu Q)
      → Grant r g s.table s'
      → Accounted capacity s
      → (k : String) (g' : Gpu Q) → lookup k s'.gpus ≡ some g'
      → IsBalanced capacity ((g.meta.name, r) ∷ s.outstanding) k g'
  unfolding with_available
  Grant-IsBalanced capacity s s' r g gr acc k g' found =
      let served = acc.entries gr.key gr.before gr.found in
      let now =
        sym (
          ap (λ (t : NaiveScheduler Q). lookup k t.gpus) gr.stored
          ∙ lookup-insert gr.key k g s.table.gpus)
        ∙ found in
      let name : g.meta.name ≡ gr.key = ap (λ (x : Gpu Q). x.meta.name) gr.result ∙ served.named in
      elim (Bool-cases (gr.key == k)) [
        | inl same ↦
            let now' : some g ≡ some g' = rw same at now in
            subst (λ x. IsBalanced capacity ((g.meta.name, r) ∷ s.outstanding) k x)
              (some-injective g g' now')
              (subst (λ x. IsBalanced capacity ((x.meta.name, r) ∷ s.outstanding) k x)
                (sym gr.result)
                (subst
                  (λ j.
                    IsBalanced capacity ((gr.before.meta.name, r) ∷ s.outstanding) j
                      (with_available gr.before (deduct gr.available r)))
                  ((eq_iff gr.key k).0 same)
                  (deducted-IsBalanced capacity s.outstanding gr.key gr.before gr.available r served
                    gr.known gr.enough)))
        | inr other ↦
            let now' : lookup k s.table.gpus ≡ some g' = rw other at now in
            kept-IsBalanced capacity s.outstanding g.meta.name k r g' (rw name other)
              (acc.entries k g' now')
      ]

  -- What `release` gives back is taken off the ledger.
  restored-IsBalanced :
      (capacity : Dimension → String → ℤ) (xs ys : List (String × Resource Q)) (k : String)
      (g : Gpu Q) (a r : Resource Q)
      → IsBalanced capacity (xs ++ (k, r) ∷ ys) k g
      → IsNonneg r
      → g.status.available ≡ some a
      → IsBalanced capacity (xs ++ ys) k (with_available g (restore a r))
  unfolding with_available
  restored-IsBalanced capacity xs ys k g a r b pos_r known =
      let same : b.available ≡ a = some-injective _ _ (sym b.known ∙ known) in
      record {
        named = b.named;
        available = restore a r;
        known = refl;
        nonneg = λ d.
            rw (amount-restore d a r)
              (sum_nonneg _ _ (subst (λ x. pos 0 ≤ℤ amount d x) same (b.nonneg d)) (pos_r d));
        balance = λ d.
            let held_before = held-append d k xs k r ys in
            rw (amount-restore d a r) (
              given_back _ _ _
              ∙ ap (λ h. amount d a +ℤ h) (sym (rw (eq_refl k) at held_before))
              ∙ ap (λ x. amount d x +ℤ held d k (xs ++ (k, r) ∷ ys)) (sym same)
              ∙ b.balance d);
      }

  -- An entry that the release does not name stays balanced.
  spared-IsBalanced :
      (capacity : Dimension → String → ℤ) (xs ys : List (String × Resource Q)) (j k : String)
      (g : Gpu Q) (r : Resource Q)
      → (j == k) ≡ false
      → IsBalanced capacity (xs ++ (j, r) ∷ ys) k g
      → IsBalanced capacity (xs ++ ys) k g
  spared-IsBalanced capacity xs ys j k g r other b = record {
    named = b.named;
    available = b.available;
    known = b.known;
    nonneg = b.nonneg;
    balance = λ d.
        let held_before = held-append d k xs j r ys in
        ap (λ h. amount d b.available +ℤ h) (sym (rw other at held_before)) ∙ b.balance d;
  }

  release-IsBalanced :
      (capacity : Dimension → String → ℤ) (xs ys : List (String × Resource Q))
      (s s' : NaiveScheduler Q) (r : Resource Q) (gpu g' : Gpu Q)
      → IsNonneg r
      → Returned r gpu g' s s'
      → ((k : String) (g : Gpu Q)
          → lookup k s.gpus ≡ some g
          → IsBalanced capacity (xs ++ (gpu.meta.name, r) ∷ ys) k g)
      → (k : String) (g : Gpu Q) → lookup k s'.gpus ≡ some g
      → IsBalanced capacity (xs ++ ys) k g
  release-IsBalanced capacity xs ys s s' r gpu g' pos_r re entries k g found =
      let name : String = gpu.meta.name in
      let back : Gpu Q = with_available re.before (restore re.available r) in
      let now =
        sym (
          ap (λ (t : NaiveScheduler Q). lookup k t.gpus) re.stored
          ∙ lookup-insert name k back s.gpus)
        ∙ found in
      elim (Bool-cases (name == k)) [
        | inl same ↦
            let now' : some back ≡ some g = rw same at now in
            subst (IsBalanced capacity (xs ++ ys) k) (some-injective back g now') (
              subst (λ j. IsBalanced capacity (xs ++ ys) j back) ((eq_iff name k).0 same)
                (restored-IsBalanced capacity xs ys name re.before re.available r
                  (entries name re.before re.found) pos_r re.known))
        | inr other ↦
            let now' : lookup k s.gpus ≡ some g = rw other at now in
            spared-IsBalanced capacity xs ys name k g r other (entries k g now')
      ]

  All-removed :
      (xs ys : List (String × Resource Q)) (e : String × Resource Q)
      → All (λ x. IsNonneg x.1) (xs ++ e ∷ ys)
      → IsNonneg e.1 × All (λ x. IsNonneg x.1) (xs ++ ys)
  All-removed [] ys e h = h
  All-removed (x ∷ xs) ys e h = let rest = All-removed xs ys e h.1 in (rest.0, (h.0, rest.1))

  -- Every step keeps the table and the ledger in balance.
  Step-Accounted :
      (capacity : Dimension → String → ℤ) {s t : System Q}
      → Step s t
      → Accounted capacity s
      → Accounted capacity t
  Step-Accounted capacity {s} {t} (grant order r g pos_r granted_by noted) acc =
      let answer = schedule-Answers order r s.table in
      let gr : Grant r g s.table t.table = rw granted_by at answer in
      record {
        entries =
            λ k g' found. rw noted (Grant-IsBalanced capacity s t.table r g gr acc k g' found);
        requests = rw noted (pos_r, acc.requests);
      }
  Step-Accounted capacity {s} {t} (give_back xs ys r gpu g' noted released left) acc =
      let requests = All-removed xs ys (gpu.meta.name, r) (rw noted at acc.requests) in
      let re = release-Returned r gpu g' s.table t.table released in
      record {
        entries = λ k g found. rw left (
            release-IsBalanced capacity xs ys s.table t.table r gpu g' requests.0 re
              (λ j e at_j. subst (λ o. IsBalanced capacity o j e) noted (acc.entries j e at_j)) k g
              found);
        requests = rw left requests.1;
      }

  pub Reach-Accounted :
      (capacity : Dimension → String → ℤ) {s t : System Q}
      → Accounted capacity s
      → Reach s t
      → Accounted capacity t
  Reach-Accounted capacity acc here = acc
  Reach-Accounted capacity acc (next r st) =
      Step-Accounted capacity st (Reach-Accounted capacity acc r)

  -- What is held of a balanced entry is within its capacity.
  held-le :
      (capacity : Dimension → String → ℤ) (o : List (String × Resource Q)) (k : String) (g : Gpu Q)
      (d : Dimension)
      → IsBalanced capacity o k g
      → held d k o ≤ℤ capacity d k
  held-le capacity o k g d b =
      subst (λ c. held d k o ≤ℤ c) (b.balance d) (le_of_nonneg _ _ (b.nonneg d))

  -- From a table that is in balance with its ledger, requests that are granted and given back in
  -- any order never hold more of a GPU than its capacity, in TFlops or in VRAM, and what the table
  -- says is available of it is the rest of its capacity and never negative.
  pub never_overcommits :
      (capacity : Dimension → String → ℤ) {s t : System Q}
      → Accounted capacity s
      → Reach s t
      → (k : String) (g : Gpu Q) → lookup k t.table.gpus ≡ some g
      → (d : Dimension)
      → (held d k t.outstanding ≤ℤ capacity d k)
        × ((a : Resource Q) × (g.status.available ≡ some a)
            × (pos 0 ≤ℤ amount d a)
            × (amount d a +ℤ held d k t.outstanding ≡ capacity d k))
  never_overcommits capacity {s} {t} acc r k g found d =
      let b = (Reach-Accounted capacity acc r).entries k g found in
      (held-le capacity t.outstanding k g d b, (b.available, b.known, b.nonneg d, b.balance d))
