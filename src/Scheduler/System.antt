-- ===== src/Scheduler/System.antt =====
-- A run of the scheduler: the table with the list of the requests that were granted and not yet given
-- back, the steps that change them, and when the two are in balance.
use tensor_fusion_operator.Prelude.{
  ◌≡◌, String, lookup, ◌==◌, List, [], ◌∷◌, ◌++◌, some, if◌then◌else◌, ok, All,
}
use tensor_fusion_operator.Prelude.Int.{ℤ, pos, ◌+ℤ◌, ◌≤ℤ◌}
use tensor_fusion_operator.Quantity.{Quantity}
use tensor_fusion_operator.Api.{Resource, Gpu}
use tensor_fusion_operator.Scheduler.{NaiveScheduler, schedule, release}
use tensor_fusion_operator.Scheduler.Amounts.{Dimension, amount}

pub record System (Q : Type 0) : Type 0 where
  pub table : NaiveScheduler Q
  pub outstanding : List (String × Resource Q)

module _ {Q : Type 0} ⦃q : Quantity Q⦄ where
  -- What the grants on GPU `k` add up to.
  unfoldable pub held : Dimension → String → List (String × Resource Q) → ℤ
  held d k [] = pos 0
  held d k ((j, r) ∷ o) = if j == k then amount d r +ℤ held d k o else held d k o

  abbrev pub IsNonneg : Resource Q → Type 0
  IsNonneg r = (d : Dimension) → pos 0 ≤ℤ amount d r

  -- A request is granted, or one of the grants is given back.
  pub data Step (s t : System Q) : Type 0 where
    grant :
        (order : List String) (r : Resource Q) (g : Gpu Q)
        → IsNonneg r
        → schedule order r s.table ≡ (ok g, t.table)
        → t.outstanding ≡ (g.meta.name, r) ∷ s.outstanding
        → Step s t
    give_back :
        (xs ys : List (String × Resource Q)) (r : Resource Q) (gpu g' : Gpu Q)
        → s.outstanding ≡ xs ++ (gpu.meta.name, r) ∷ ys
        → release r gpu s.table ≡ (ok g', t.table)
        → t.outstanding ≡ xs ++ ys
        → Step s t

  pub data Reach (s : System Q) : System Q → Type 0 where
    here : Reach s s
    next : {t u : System Q} → Reach s t → Step t u → Reach s u

  -- The GPU in the table: its name is its key, it has a known amount available, and what is
  -- available and what is held add up to its capacity.
  pub record IsBalanced (capacity : Dimension → String → ℤ) (o : List (String × Resource Q))
      (k : String) (g : Gpu Q) : Type 0 where
    pub named : g.meta.name ≡ k
    pub available : Resource Q
    pub known : g.status.available ≡ some available
    pub nonneg : IsNonneg available
    pub balance : (d : Dimension) → amount d available +ℤ held d k o ≡ capacity d k

  pub record Accounted (capacity : Dimension → String → ℤ) (s : System Q) : Type 0 where
    pub entries :
        (k : String) (g : Gpu Q)
        → lookup k s.table.gpus ≡ some g
        → IsBalanced capacity s.outstanding k g
    pub requests : All (λ e. IsNonneg e.1) s.outstanding
