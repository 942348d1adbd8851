-- ===== src/Utils/Backoff.antt =====
-- `CalculateExponentialBackoffWithJitter`, in nanoseconds.
use tensor_fusion_operator.Prelude.{◌≡◌, sym, ap, ◌∙◌, inl, inr, Bool-cases, if◌then◌else◌, arith}
use tensor_fusion_operator.Prelude.Int.{ℤ, pos, negsuc, ltb_ℤ, ◌≤ℤ◌}
use tensor_fusion_operator.Float.{Float}

abbrev pub base_delay : ℤ
base_delay = pos 3_000_000_000

abbrev pub max_delay : ℤ
max_delay = pos 60_000_000_000

abbrev pub max_retries : ℤ
max_retries = pos 10

cap_retries : ℤ → ℤ
cap_retries retry_count = if ltb_ℤ max_retries retry_count then max_retries else retry_count

clamp_delay : ℤ → ℤ
clamp_delay total_delay =
    let at_least = if ltb_ℤ total_delay base_delay then base_delay else total_delay in
    if ltb_ℤ max_delay at_least then max_delay else at_least

clamp_delay_bounds : (t : ℤ) → (base_delay ≤ℤ clamp_delay t) × (clamp_delay t ≤ℤ max_delay)
unfolding clamp_delay
clamp_delay_bounds t = elim (Bool-cases (ltb_ℤ t base_delay)) [
  | inl short ↦ rw short (ground arith)
  | inr long ↦ rw long (elim (Bool-cases (ltb_ℤ max_delay t)) [
    | inl over ↦ rw over (ground arith)
    | inr under ↦ rw under (ground arith)
  ])
]

cap_retries_above : (n : ℤ) → max_retries ≤ℤ n → cap_retries n ≡ max_retries
unfolding cap_retries
cap_retries_above (pos n) h = ground arith
cap_retries_above (negsuc n) h = absurd (omega arith)

module _ {F : Type 0} ⦃f : Float F⦄ where
  open f use {of_int, to_int64, mul, pow}

  -- `random` is the value of `rand.Float64()`.
  unfoldable pub calculate_exponential_backoff_with_jitter : F → ℤ → ℤ
  unfolding cap_retries clamp_delay
  calculate_exponential_backoff_with_jitter random retry_count =
      let backoff =
        mul (of_int base_delay) (pow (of_int (pos 2)) (of_int (cap_retries retry_count))) in
      clamp_delay (to_int64 (mul random backoff))

  jitter : F → ℤ → ℤ
  jitter random n =
      to_int64
        (mul random (mul (of_int base_delay) (pow (of_int (pos 2)) (of_int (cap_retries n)))))

  -- Whatever the random number and the retry count, also a negative one, the delay is between 3 and
  -- 60 seconds; and every count above 10 gives the delay of count 10.
  pub backoff_bounds :
      (random : F) (n : ℤ)
      → (base_delay ≤ℤ calculate_exponential_backoff_with_jitter random n)
        × (calculate_exponential_backoff_with_jitter random n ≤ℤ max_delay)
        × (max_retries ≤ℤ n
            → calculate_exponential_backoff_with_jitter random n
              ≡ calculate_exponential_backoff_with_jitter random max_retries)
  unfolding calculate_exponential_backoff_with_jitter jitter
  backoff_bounds random n =
      let b = clamp_delay_bounds (jitter random n) in
      (
        b.0,
        b.1,
        λ h.
            ap
              (λ k.
                clamp_delay (
                  to_int64
                    (mul random (mul (of_int base_delay) (pow (of_int (pos 2)) (of_int k))))))
              (cap_retries_above n h ∙ sym (cap_retries_above max_retries (omega arith))),
      )
