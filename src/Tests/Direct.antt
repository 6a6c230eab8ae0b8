-- ===== src/Tests/Direct.antt =====
-- `CcuKernel` on two ranks.
use hccl_reduce_scatter.Kernel.Common.Notices.{AllNotified, exchange-AllNotified}
use hccl_reduce_scatter.Kernel.Common.{exchange}
use hccl_reduce_scatter.Prelude.{true}
use hccl_reduce_scatter.Prelude.{
  ℕ, zero, suc, ◌+◌, ◌<◌, ◌≡◌, ◌≢◌, refl, [], ◌∷◌, if◌then◌else◌, ◌==◌, arith, sub32,
}
use hccl_reduce_scatter.Ccu.{fp32, sum, Inputs}
use hccl_reduce_scatter.Ccu.Device.{perform_all, flights}
use hccl_reduce_scatter.Ccu.Race.{Run_total}
use hccl_reduce_scatter.Kernel.Args.{CcuReduceScatterKernelArg, channel_at}
use hccl_reduce_scatter.Kernel.Common.{channel_of}
use hccl_reduce_scatter.Kernel.Direct.{direct_calls}
use hccl_reduce_scatter.Kernel.Direct.Laws.{
  IsWired, IsFit, direct_calls-reduces, direct_calls_frame,
}
use hccl_reduce_scatter.Tests.Bench.{memory, bench, bench-IsLawful, inputs}

abbrev rank_zero : CcuReduceScatterKernelArg
rank_zero = record {
  base = record { channels = 1 ∷ []; channel_count = 1 };
  rank_size = 2;
  rank_id = 0;
  data_type = fp32;
  reduce_op = sum;
}

abbrev task : Inputs
task = inputs (1000 ∷ 7 ∷ 10 ∷ 7 ∷ 4 ∷ 8 ∷ []) 20

abbrev input_at : ℕ → ℕ
input_at r = if r == 0 then 10 else 20

peer_memory_lem :
    (r a : ℕ)
    → r < 2
    → r ≢ 0
    → bench.remote (channel_at rank_zero.base (channel_of 0 r)) a ≡ memory r a
unfolding sub32
peer_memory_lem zero a h ne = absurd (ne refl)
peer_memory_lem (suc zero) a h ne = refl
peer_memory_lem (suc (suc r)) a h ne = absurd (omega arith)

peer_addr_lem : (r : ℕ) → r < 2 → r ≢ 0 → 20 ≡ input_at r
peer_addr_lem zero h ne = absurd (ne refl)
peer_addr_lem (suc r) h ne = ground arith

pair-IsWired : IsWired bench rank_zero task memory input_at
pair-IsWired = record { own_addr = refl; peer_memory = peer_memory_lem; peer_addr = peer_addr_lem }

pair-IsFit : IsFit bench rank_zero task input_at
pair-IsFit = record {
  two_ranks = omega arith;
  few_ranks = omega arith;
  own_rank = omega arith;
  in_space = λ r h. ground arith;
}

abbrev outcome : ℕ → ℕ
outcome = perform_all bench (flights (direct_calls rank_zero task)) (memory 0)

direct_calls-reduces_example : outcome 1003 ≡ 17 + 127
direct_calls-reduces_example =
    direct_calls-reduces bench rank_zero task pair-IsWired pair-IsFit bench-IsLawful (memory 0)
      (λ j h. refl) (Run_total bench (direct_calls rank_zero task) (memory 0)) 3 (omega arith)

direct_calls_frame_example : outcome 1008 ≡ 1008
direct_calls_frame_example =
    direct_calls_frame bench rank_zero task bench-IsLawful
      (Run_total bench (direct_calls rank_zero task) (memory 0)) 1008 refl

-- Three sources, of which the second is the own one.
exchange-AllNotified_example :
    AllNotified
      (exchange
        (record { channels = 4 ∷ 6 ∷ []; channel_count = 2 })
        (λ source. source == 1)
        (record { addr = 1000; token = 7 })
        6
        3)
      []
exchange-AllNotified_example =
    exchange-AllNotified (record { channels = 4 ∷ 6 ∷ []; channel_count = 2 }) true 1
      (record { addr = 1000; token = 7 }) 6 3 (λ e. omega arith) refl
