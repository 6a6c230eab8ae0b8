-- ===== src/Kernel/Direct/Signals.antt =====
-- `CcuKernel` does not hang at an `EventWait`.
use hccl_reduce_scatter.Prelude.{ℕ, zero, suc, ◌+◌, refl, [], sub32}
use hccl_reduce_scatter.Ccu.{Inputs}
use hccl_reduce_scatter.Ccu.Race.Waits.{AllSignalled, AllSignalled-after_control}
use hccl_reduce_scatter.Kernel.Args.{CcuReduceScatterKernelArg}
use hccl_reduce_scatter.Kernel.Common.Laws.{exchange-IsControl}
use hccl_reduce_scatter.Kernel.Direct.{direct_calls, direct_steps, direct_reduction, direct_input}

module _ (k : CcuReduceScatterKernelArg) (i : Inputs) where
  steps-AllSignalled : (n step : ℕ) → AllSignalled (direct_steps k i n step) []
  unfolding direct_steps
  steps-AllSignalled zero step = tt
  steps-AllSignalled (suc n) step = (λ b below held. refl, steps-AllSignalled n (step + 1))

  -- Every `EventWait` of the direct kernel is for bits that transfers started in front of it, and
  -- not taken by an earlier wait, signal.
  pub direct_calls-AllSignalled : AllSignalled (direct_calls k i) []
  unfolding direct_calls
  direct_calls-AllSignalled =
      AllSignalled-after_control _ (direct_reduction k i) []
        (exchange-IsControl k.base _ (direct_input k i) 6 k.rank_size)
        (λ b below held. refl, steps-AllSignalled (sub32 k.rank_size 1) 1)
