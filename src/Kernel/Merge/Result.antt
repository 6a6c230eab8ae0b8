-- ===== src/Kernel/Merge/Result.antt =====
-- The result of `CcuMergePartialKernel`.
use hccl_reduce_scatter.Prelude.{ℕ, ◌+◌, ◌<◌, ◌≡◌, refl, ◌∙◌, ap, []}
use hccl_reduce_scatter.Ccu.{Inputs}
use hccl_reduce_scatter.Ccu.Device.{Device, IsLawful, Run, perform_all, flights}
use hccl_reduce_scatter.Ccu.Race.{IsRaceFree, Run-eq}
use hccl_reduce_scatter.Ccu.Disjoint.{perform_filled}
use hccl_reduce_scatter.Kernel.Args.{CcuMergePartialKernelArg}
use hccl_reduce_scatter.Kernel.Tree.Rounds.{inside_at, across_at}
use hccl_reduce_scatter.Kernel.Merge.{merge_calls, merge_transfer, merge_output, cross_partial}

module _ {V : Type 0} (D : Device V) (k : CcuMergePartialKernelArg) (i : Inputs) where
  merge_calls-IsRaceFree : IsRaceFree D (merge_calls k i) []
  unfolding merge_calls
  merge_calls-IsRaceFree = (tt, refl)

  merge_effect :
      (m : ℕ → V) → perform_all D (flights (merge_calls k i)) m ≡ D.perform (merge_transfer k i) m
  unfolding merge_calls
  merge_effect m = refl

  -- In every run each element of the output is then combined with that of the other partial.
  pub merge_calls-combines :
      IsLawful D
      → {m m' : ℕ → V} → Run D (merge_calls k i) m [] m'
      → (e : ℕ) → e < i.task_arg 4
      → m' (i.task_arg 0 + e)
        ≡ D.combine k.data_type k.reduce_op (m (i.task_arg 0 + e)) (m (i.task_arg 2 + e))
  merge_calls-combines lawful {m} run e h =
      ap (λ f. f (i.task_arg 0 + e)) (Run-eq D merge_calls-IsRaceFree run ∙ merge_effect m)
      ∙ perform_filled D lawful (merge_transfer k i) m (i.task_arg 0 + e)
          (inside_at (merge_output k i) (i.task_arg 4) e h)
      ∙ ap (λ a. D.combine k.data_type k.reduce_op (m (i.task_arg 0 + e)) (m a))
          (across_at (merge_output k i) (cross_partial k i) e)
