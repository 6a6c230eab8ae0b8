-- ===== src/Tests/Refines.antt =====
-- The algorithms of the collective against its specification, on two and on sixteen ranks.
use hccl_reduce_scatter.Prelude.{ℕ, refl, [], ◌∷◌, arith}
use hccl_reduce_scatter.Ccu.Device.{perform_all, flights}
use hccl_reduce_scatter.Ccu.Race.{Run_total}
use hccl_reduce_scatter.Kernel.Striped.{striped_calls}
use hccl_reduce_scatter.Collective.Runs.{last_memory, RunAll-total}
use hccl_reduce_scatter.Collective.Striped as Striped
use hccl_reduce_scatter.Collective.Striped.{launch_inputs}
use hccl_reduce_scatter.Collective.Refines.{
  ReduceScattered, direct-refines, striped-refines, tree-refines,
}
use hccl_reduce_scatter.Tests.Bench.{memory, bench, bench-IsLawful}
use hccl_reduce_scatter.Tests.Collective.{
  pair_task, peer_vars, input_at, pair-IsSized, pair-IsJoined, direct_programs,
}
use hccl_reduce_scatter.Tests.TreeRuns.{
  sixteen_task, sixteen_vars, sixteen_input_at, fifteen_channels, sixteen_programs,
  sixteen-IsJoined, sixteen-HasScratch, sixteen-IsSmallTask, sixteen_chosen,
}

abbrev direct_memory : ℕ → ℕ
direct_memory = last_memory bench direct_programs (memory 1)

abbrev striped_memory : ℕ → ℕ
striped_memory =
    perform_all bench
      (flights (
        striped_calls (Striped.arg bench pair_task (0 ∷ []) peer_vars)
          (launch_inputs pair_task peer_vars)))
      (memory 1)

direct-refines_example : ReduceScattered bench pair_task memory input_at direct_memory
direct-refines_example =
    direct-refines bench pair_task (0 ∷ []) peer_vars pair-IsJoined bench-IsLawful refl (memory 1)
      (λ a. refl) refl (omega arith) (RunAll-total bench direct_programs (memory 1))

striped-refines_example : ReduceScattered bench pair_task memory input_at striped_memory
striped-refines_example =
    striped-refines bench pair_task (0 ∷ []) peer_vars pair-IsJoined bench-IsLawful refl (memory 1)
      (λ a. refl) pair-IsSized
      (Run_total bench
        (striped_calls (Striped.arg bench pair_task (0 ∷ []) peer_vars)
          (launch_inputs pair_task peer_vars))
        (memory 1))

tree-refines_example :
    ReduceScattered bench sixteen_task memory sixteen_input_at
      (last_memory bench sixteen_programs (memory 15))
tree-refines_example =
    tree-refines bench sixteen_task fifteen_channels sixteen_vars sixteen-IsJoined bench-IsLawful
      refl (memory 15) (λ a. refl) sixteen-HasScratch sixteen-IsSmallTask sixteen_chosen refl refl
      (RunAll-total bench sixteen_programs (memory 15))
