-- ===== src/Tests/TiledRuns.antt =====
-- `CcuTiledPartialReduceKernel` on three sources, with three full tiles and a tail.
use hccl_reduce_scatter.Ccu.Race.Waits.{AllSignalled}
use hccl_reduce_scatter.Kernel.Tiled.Signals.{tiled_calls-AllSignalled}
use hccl_reduce_scatter.Prelude.{
  ℕ, zero, suc, ◌+◌, ◌*◌, ◌<◌, ◌≡◌, ◌≢◌, ◌⊎◌, refl, true, [], ◌∷◌, ◌++◌, arith, inr, get_or,
}
use hccl_reduce_scatter.Ccu.{fp32, sum, Inputs}
use hccl_reduce_scatter.Ccu.Device.{perform_all, flights}
use hccl_reduce_scatter.Ccu.Race.{IsRaceFree, Run_total}
use hccl_reduce_scatter.Kernel.Args.{CcuTiledPartialReduceKernelArg}
use hccl_reduce_scatter.Kernel.Common.{exchange}
use hccl_reduce_scatter.Kernel.Tiled.{tiled_calls, tiled_input, is_included}
use hccl_reduce_scatter.Kernel.Tiled.Fetch.{remote_source}
use hccl_reduce_scatter.Kernel.Tiled.Pipeline.{tiled_calls-pipeline}
use hccl_reduce_scatter.Kernel.Tiled.Pipeline.Tiles.{IsCut, from_start, entries}
use hccl_reduce_scatter.Kernel.Tiled.Places.{Apart, IsPlaced, scratch}
use hccl_reduce_scatter.Kernel.Tiled.Races.{tiled_calls-IsRaceFree}
use hccl_reduce_scatter.Kernel.Tiled.Result.{IsWired, tiled_reduction, tiled_calls-reduces}
use hccl_reduce_scatter.Tests.Bench.{memory, bench, bench-IsLawful, inputs}

abbrev tiled_sources : CcuTiledPartialReduceKernelArg
tiled_sources = record {
  base = record { channels = 0 ∷ 2 ∷ []; channel_count = 2 };
  source_count = 3;
  local_source_index = 1;
  include_local_source = true;
  data_type = fp32;
  reduce_op = sum;
}

abbrev tiled_inputs : Inputs
tiled_inputs =
    inputs
      (1000 ∷ 7 ∷ 10 ∷ 7 ∷ 9 ∷ 6 ∷ 4 ∷ 18446744073709551614 ∷ 1 ∷ 2 ∷ 2000 ∷ 2004 ∷ 2008 ∷ 2012
        ∷ 2016 ∷ 2020 ∷ [])
      10

three_tiles-IsCut : IsCut tiled_sources tiled_inputs 3
three_tiles-IsCut = record {
  some = omega arith;
  pairs_left = refl;
  odd = refl;
  in_space = omega arith;
}

tiled_calls-pipeline_example :
    tiled_calls tiled_sources tiled_inputs
    ≡ exchange tiled_sources.base
        (is_included tiled_sources tiled_inputs)
        (tiled_input tiled_sources tiled_inputs)
        16
        3
      ++ from_start tiled_sources tiled_inputs (entries tiled_sources tiled_inputs 3)
tiled_calls-pipeline_example = tiled_calls-pipeline tiled_sources tiled_inputs 3 three_tiles-IsCut

scratch_at :
    (bank source : ℕ)
    → bank < 2
    → source < 3
    → scratch tiled_sources tiled_inputs bank source ≡ 2000 + 4 * (3 * bank + source)
scratch_at zero zero h l = refl
scratch_at zero (suc zero) h l = refl
scratch_at zero (suc (suc zero)) h l = refl
scratch_at (suc zero) zero h l = refl
scratch_at (suc zero) (suc zero) h l = refl
scratch_at (suc zero) (suc (suc zero)) h l = refl
scratch_at (suc (suc bank)) source h l = absurd (omega (arith, h))
scratch_at zero (suc (suc (suc source))) h l = absurd (omega (arith, l))
scratch_at (suc zero) (suc (suc (suc source))) h l = absurd (omega (arith, l))

apart_lem :
    (bank source bank' source' : ℕ)
    → bank < 2
    → bank' < 2
    → source < 3
    → source' < 3
    → (bank ≢ bank') ⊎ (source ≢ source')
    → Apart
        (scratch tiled_sources tiled_inputs bank source)
        4
        (scratch tiled_sources tiled_inputs bank' source')
        4
apart_lem bank source bank' source' hb hb' hs hs' ne =
    rw (scratch_at bank source hb hs, scratch_at bank' source' hb' hs') (ground arith)

tiled-IsPlaced : IsPlaced tiled_sources tiled_inputs 3
tiled-IsPlaced = record {
  cut = three_tiles-IsCut;
  channeled = record { own_source = λ e. omega arith; one_channel_each = refl };
  some_channel = omega arith;
  few_sources = omega arith;
  small_tail = omega arith;
  output_space = omega arith;
  own_space = λ e. omega arith;
  slots_apart = apart_lem;
  slots_off_output = λ bank source hb hs. rw (scratch_at bank source hb hs) (inr (omega arith));
  slots_off_own = λ bank source e hb hs. rw (scratch_at bank source hb hs) (inr (omega arith));
  output_off_own = λ e. inr (omega arith);
}

source_lem :
    (c a : ℕ)
    → c < 2
    → bench.remote (get_or (0 ∷ 2 ∷ []) c 0) a
      ≡ memory (remote_source tiled_sources tiled_inputs c) a
source_lem zero a h = refl
source_lem (suc zero) a h = refl
source_lem (suc (suc c)) a h = absurd (omega (arith, h))

tiled-IsWired : IsWired bench tiled_sources tiled_inputs memory (λ r. 10) 3
tiled-IsWired = record {
  source_memory = source_lem;
  source_addr = λ c h. refl;
  source_space = λ c h. omega arith;
}

abbrev tiled_outcome : ℕ → ℕ
tiled_outcome = perform_all bench (flights (tiled_calls tiled_sources tiled_inputs)) (memory 1)

-- The tail overlaps with the odd tile, so the transfers of both are in flight together.
tiled_calls-IsRaceFree_example : IsRaceFree bench (tiled_calls tiled_sources tiled_inputs) []
tiled_calls-IsRaceFree_example =
    tiled_calls-IsRaceFree tiled_sources tiled_inputs tiled-IsPlaced bench bench-IsLawful 3 refl

tiled_calls-reduces_example :
    tiled_outcome 1013
    ≡ tiled_reduction bench tiled_sources tiled_inputs bench-IsLawful tiled-IsPlaced tiled-IsWired
        13
tiled_calls-reduces_example =
    tiled_calls-reduces bench tiled_sources tiled_inputs bench-IsLawful tiled-IsPlaced tiled-IsWired
      (memory 1) (λ e j h. ground arith)
      (Run_total bench (tiled_calls tiled_sources tiled_inputs) (memory 1)) 13 (omega arith)

tiled_calls-AllSignalled_example : AllSignalled (tiled_calls tiled_sources tiled_inputs) []
tiled_calls-AllSignalled_example =
    tiled_calls-AllSignalled tiled_sources tiled_inputs tiled-IsPlaced 3 refl
