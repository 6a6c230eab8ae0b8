-- ===== src/Tests/DualDieRuns.antt =====
-- The two-die algorithm on rank 1 of four.
use mathlib.Core.List.Permᴰ
use hccl_reduce_scatter.Prelude.{◌++◌, ℕ, ◌+◌, ◌≡◌, refl, true, arith, mul64, add64}
use hccl_reduce_scatter.Status.{hccl_success}
use hccl_reduce_scatter.Ccu.Device.{perform_all, flights}
use hccl_reduce_scatter.Ccu.Race.{Run_total}
use hccl_reduce_scatter.Ccu.Race.Parallel.{RunBoth-total}
use hccl_reduce_scatter.Host.Types.{kernel_launch}
use hccl_reduce_scatter.Host.Exec.Partial.{
  local_args, cross_args, merge_args, exec_partial, full_tile_count,
}
use hccl_reduce_scatter.Collective.DualDie.Cells.{local_program, cross_program, merge_program}
use hccl_reduce_scatter.Collective.DualDie.Result as DualDie
use hccl_reduce_scatter.Collective.DualDie.Result.{IsDualWired}
use hccl_reduce_scatter.Collective.DualDie.Threads.{
  queue, main_queue, other_queue, dual_die-forks, dual_die_launches-reduce,
}
use hccl_reduce_scatter.Collective.DualDie.Refines.{dual_die-refines}
use hccl_reduce_scatter.Collective.Refines.{ReduceScattered}
use hccl_reduce_scatter.Tests.Bench.{memory, bench, bench-IsLawful}
use hccl_reduce_scatter.Tests.DualDieTask.{
  two_die_task, two_die_vars, one_channel, two_channels, two_die_input_at, tile_lem,
  two_dies-IsTwoDies, two_dies-IsDualWired, cross_half, two_dies-HasHandles,
}
use hccl_reduce_scatter.Collective.Slots as Slots
use hccl_reduce_scatter.Collective.Slots.Tiles.{launch-tiles}
use hccl_reduce_scatter.Kernel.Common.{exchange}
use hccl_reduce_scatter.Kernel.Tiled.{tiled_calls, is_included, tiled_input}
use hccl_reduce_scatter.Kernel.Tiled.Pipeline.Tiles.{from_start, entries}

abbrev after_both : ℕ → ℕ
after_both =
    perform_all bench
      (flights (cross_program bench two_die_task one_channel two_channels two_die_vars))
      (perform_all bench
        (flights (local_program bench two_die_task one_channel two_channels two_die_vars))
        (memory 1))

abbrev after_merge : ℕ → ℕ
after_merge =
    perform_all bench
      (flights (merge_program bench two_die_task one_channel two_channels two_die_vars)) after_both

dual_die-forks_example :
    ((exec_partial true two_die_task).result ≡ hccl_success)
    × (queue 1 (exec_partial true two_die_task).calls
        ≡ main_queue bench two_die_task one_channel two_channels two_die_vars
            (kernel_launch 1 11 (local_args true two_die_task))
            (kernel_launch 1 13 (merge_args true two_die_task)))
    × (queue 2 (exec_partial true two_die_task).calls
        ≡ other_queue bench two_die_task one_channel two_channels two_die_vars
            (kernel_launch 2 12 (cross_args true two_die_task)))
dual_die-forks_example =
    dual_die-forks bench two_die_task one_channel two_channels two_die_vars two_dies-IsTwoDies refl
      refl two_dies-HasHandles

two_dies-forks :
    ((exec_partial true two_die_task).result ≡ hccl_success)
    × (queue 1 (exec_partial true two_die_task).calls
        ≡ main_queue bench two_die_task one_channel two_channels two_die_vars
            (kernel_launch 1 11 (local_args true two_die_task))
            (kernel_launch 1 13 (merge_args true two_die_task)))
    × (queue 2 (exec_partial true two_die_task).calls
        ≡ other_queue bench two_die_task one_channel two_channels two_die_vars
            (kernel_launch 2 12 (cross_args true two_die_task)))
two_dies-forks =
    dual_die-forks bench two_die_task one_channel two_channels two_die_vars two_dies-IsTwoDies refl
      refl two_dies-HasHandles

dual_die_launches-reduce_example :
    after_merge 545
    ≡ DualDie.local_partial bench two_die_task one_channel two_channels two_die_vars bench-IsLawful
        two_dies-IsTwoDies refl refl two_dies-IsDualWired
        (memory 1)
        (λ a. refl)
        45
      + DualDie.cross_partial bench two_die_task one_channel two_channels two_die_vars
          bench-IsLawful two_dies-IsTwoDies refl refl two_dies-IsDualWired
          (memory 1)
          (λ a. refl)
          45
dual_die_launches-reduce_example =
    dual_die_launches-reduce bench two_die_task one_channel two_channels two_die_vars
      two_dies-IsTwoDies refl refl two_dies-HasHandles bench-IsLawful two_dies-IsDualWired
      (memory 1) (λ a. refl) {first = kernel_launch 1 11 (local_args true two_die_task)}
      {only = kernel_launch 2 12 (cross_args true two_die_task)}
      {last = kernel_launch 1 13 (merge_args true two_die_task)} two_dies-forks.1 two_dies-forks.2
      (RunBoth-total bench (local_program bench two_die_task one_channel two_channels two_die_vars)
        (cross_program bench two_die_task one_channel two_channels two_die_vars) (memory 1))
      (Run_total bench (merge_program bench two_die_task one_channel two_channels two_die_vars)
        after_both)
      45 (omega arith)

dual_die-refines_example : ReduceScattered bench two_die_task memory two_die_input_at after_merge
dual_die-refines_example =
    dual_die-refines bench two_die_task one_channel two_channels two_die_vars bench-IsLawful
      two_dies-IsTwoDies refl refl two_dies-IsDualWired (memory 1) (λ a. refl) (Permᴰ.refl _)
      (RunBoth-total bench (local_program bench two_die_task one_channel two_channels two_die_vars)
        (cross_program bench two_die_task one_channel two_channels two_die_vars) (memory 1))
      (Run_total bench (merge_program bench two_die_task one_channel two_channels two_die_vars)
        after_both)

launch-tiles_example :
    (tiled_calls cross_half (Slots.inputs true two_die_task cross_half two_die_vars 700 9 800)
      ≡ exchange cross_half.base
          (is_included cross_half
            (Slots.inputs true two_die_task cross_half two_die_vars 700 9 800))
          (tiled_input cross_half
            (Slots.inputs true two_die_task cross_half two_die_vars 700 9 800))
          14
          2
        ++ from_start cross_half
            (Slots.inputs true two_die_task cross_half two_die_vars 700 9 800)
            (entries cross_half
              (Slots.inputs true two_die_task cross_half two_die_vars 700 9 800)
              (full_tile_count true two_die_task)))
    × (40 + 8 ≡ 48)
unfolding mul64 add64
launch-tiles_example =
    launch-tiles true two_die_task cross_half two_die_vars 700 9 800 (omega (arith, tile_lem))
      (omega arith) 2 (omega arith)
