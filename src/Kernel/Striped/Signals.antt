-- ===== src/Kernel/Striped/Signals.antt =====
-- `CcuPartialReduceKernel` does not hang at an `EventWait`.
use Prim.Native.Nat.{bit_and}
use hccl_reduce_scatter.Prelude.{
  ℕ, zero, suc, ◌+◌, ◌*◌, ◌≤◌, ◌<◌, ◌≡◌, refl, true, not, [], arith, inl, inr, Bool-cases, ◌==◌,
  range_from, bit16, low_mask16-below,
}
use hccl_reduce_scatter.Ccu.{Inputs, bits}
use hccl_reduce_scatter.Ccu.Race.Waits.{
  AllSignalled, AllSignalled-after_control, AllSignalled-batch, any_awaited-map,
}
use hccl_reduce_scatter.Kernel.Args.{CcuPartialReduceKernelArg}
use hccl_reduce_scatter.Kernel.Common.Laws.{exchange-IsControl}
use hccl_reduce_scatter.Kernel.Striped.{
  striped_calls, striped_rounds, striped_input, stripe_flight, all_stripes_mask,
}

module _ (k : CcuPartialReduceKernelArg) (i : Inputs) where
  stripes_mask-below :
      (s : ℕ)
      → k.stripe_count ≤ 16
      → s < 16
      → not (bit_and (all_stripes_mask k i) (bit16 s) == 0) ≡ true
      → s < k.stripe_count
  stripes_mask-below s few h held = elim (Bool-cases (k.stripe_count == 16)) [
    | inl all ↦ ground arith
    | inr some_left ↦ low_mask16-below k.stripe_count s few h (rw some_left at held)
  ]

  rounds-AllSignalled :
      (n round : ℕ) → k.stripe_count ≤ 16 → AllSignalled (striped_rounds k i n round) []
  unfolding striped_rounds
  rounds-AllSignalled zero round few = tt
  rounds-AllSignalled (suc n) round few =
      AllSignalled-batch (stripe_flight k i round) (range_from 0 k.stripe_count) 0
        (bits (all_stripes_mask k i)) (striped_rounds k i n (round + 1)) []
        (λ b below held.
          let low = stripes_mask-below b few below held in
          any_awaited-map 0 (stripe_flight k i round) 0 k.stripe_count b (omega arith) (omega arith)
            below refl refl)
        tt (rounds-AllSignalled n (round + 1) few)

  -- With at most 16 stripes, every `EventWait` of the striped kernel is for bits that transfers
  -- started in front of it, and not taken by an earlier wait, signal.
  pub striped_calls-AllSignalled : k.stripe_count ≤ 16 → AllSignalled (striped_calls k i) []
  unfolding striped_calls
  striped_calls-AllSignalled few =
      AllSignalled-after_control _ (striped_rounds k i k.source_count 0) []
        (exchange-IsControl k.base _ (striped_input k i) (5 + 2 * k.stripe_count) k.source_count)
        (rounds-AllSignalled k.source_count 0 few)
