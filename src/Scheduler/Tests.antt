-- ===== src/Scheduler/Tests.antt =====
-- The theorems of the scheduler at concrete inputs.
use tensor_fusion_operator.Scheduler.Refinement.{
  Book, Op, Represents, entry, seen_of, run, run_spec, run-Agree, place, give_back,
}
use tensor_fusion_operator.Prelude.{
  List, map, ◌≡◌, refl, some, [], ◌∷◌, lookup, inl, inr, Bool-cases, eq_iff, arith, none, ◌==◌,
  String,
}
use tensor_fusion_operator.Prelude.Int.{ℤ, pos, ◌+ℤ◌, ◌-ℤ◌, ◌≤ℤ◌}
use tensor_fusion_operator.Api.{Gpu, Resource}
use mathlib.Core.Path.{subst}
use tensor_fusion_operator.Samples.{int_quantity, gpu_with, table_of_one, resource, gpu_served}
use tensor_fusion_operator.Scheduler.{fits, deduct, with_available, schedule, try_gpu}
use tensor_fusion_operator.Scheduler.Amounts.{Dimension, amount}
use tensor_fusion_operator.Scheduler.Grants.{Answers, schedule-Answers}
use tensor_fusion_operator.Scheduler.Ledger.{never_overcommits}
use tensor_fusion_operator.Scheduler.System.{System, Step, Reach, Accounted, IsBalanced, held}

abbrev asked : Resource ℤ
asked = resource (pos 3) (pos 4)

abbrev left : Gpu ℤ
left = gpu_served

schedule-Answers_example :
    Answers
      ("gpu-0" ∷ [])
      asked
      table_of_one
      (schedule ("gpu-0" ∷ []) asked table_of_one).0
      (schedule ("gpu-0" ∷ []) asked table_of_one).1
schedule-Answers_example = schedule-Answers ("gpu-0" ∷ []) asked table_of_one

-- A grant on the one GPU, of capacity 10 and 20.
abbrev capacity : Dimension → String → ℤ
capacity Dimension.tflops k = pos 10
capacity Dimension.vram k = pos 20

abbrev before : System ℤ
before = record { table = table_of_one; outstanding = [] }

abbrev after : System ℤ
after = record {
  table = record { gpus = ("gpu-0", left) ∷ [] };
  outstanding = ("gpu-0", asked) ∷ [];
}

full_IsBalanced : IsBalanced capacity [] "gpu-0" (gpu_with "gpu-0" (pos 10) (pos 20))
unfolding held amount ◌+ℤ◌
full_IsBalanced = record {
  named = refl;
  available = resource (pos 10) (pos 20);
  known = refl;
  nonneg = λ d. ground arith;
  balance = λ d. ground arith;
}

same_some : {a b : Gpu ℤ} → some a ≡ some b → a ≡ b
same_some h = cc

before_entries :
    (k : String) (g : Gpu ℤ) → lookup k table_of_one.gpus ≡ some g → IsBalanced capacity [] k g
before_entries k g h = elim (Bool-cases ("gpu-0" == k)) [
  | inl e ↦
      let same : some (gpu_with "gpu-0" (pos 10) (pos 20)) ≡ some g = rw e at h in
      subst (λ j. IsBalanced capacity [] j g) ((eq_iff "gpu-0" k).0 e)
        (subst (λ x. IsBalanced capacity [] "gpu-0" x) (same_some same) full_IsBalanced)
  | inr e ↦ let absent : none ≡ some g = rw e at h in absurd (cc)
]

before-Accounted : Accounted capacity before
before-Accounted = record { entries = before_entries; requests = tt }

granted : Step before after
unfolding schedule try_gpu fits amount deduct with_available ◌-ℤ◌
granted = Step.grant ("gpu-0" ∷ []) asked left (λ d. ground arith) refl refl

never_overcommits_example :
    (held Dimension.tflops "gpu-0" after.outstanding ≤ℤ pos 10)
    × ((a : Resource ℤ) × (left.status.available ≡ some a)
        × (pos 0 ≤ℤ amount Dimension.tflops a)
        × (amount Dimension.tflops a +ℤ held Dimension.tflops "gpu-0" after.outstanding ≡ pos 10))
never_overcommits_example =
    never_overcommits capacity before-Accounted (Reach.next Reach.here granted) "gpu-0" left refl
      Dimension.tflops

-- The book of the table with one GPU.
abbrev book_of_one : Book
book_of_one k = entry (lookup k table_of_one.gpus)

abbrev ops : List (Op ℤ)
ops =
    place ("gpu-0" ∷ []) (resource (pos 3) (pos 4))
    ∷ give_back (resource (pos 3) (pos 4)) gpu_served
    ∷ []

run-Agree_example :
    (map seen_of (run ops table_of_one).0 ≡ (run_spec ops book_of_one).0)
    × Represents (run ops table_of_one).1 (run_spec ops book_of_one).1
run-Agree_example = run-Agree ops table_of_one book_of_one (λ k. refl)
