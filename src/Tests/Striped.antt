-- ===== src/Tests/Striped.antt =====
-- `CcuPartialReduceKernel` on two ranks with two stripes.
use hccl_reduce_scatter.Ccu.Race.Waits.{AllSignalled}
use hccl_reduce_scatter.Kernel.Striped.Signals.{striped_calls-AllSignalled}
use hccl_reduce_scatter.Prelude.{
  ℕ, zero, suc, ◌+◌, ◌≤◌, ◌<◌, ◌≡◌, refl, true, false, [], ◌∷◌, if◌then◌else◌, ◌==◌, arith, inr,
  sub32,
}
use hccl_reduce_scatter.Ccu.{fp32, sum, Inputs}
use hccl_reduce_scatter.Ccu.Device.{perform_all, flights}
use hccl_reduce_scatter.Ccu.Race.{Run_total}
use hccl_reduce_scatter.Kernel.Args.{CcuPartialReduceKernelArg, channel_at}
use hccl_reduce_scatter.Kernel.Striped.{
  striped_calls, is_local_source, striped_channel, stripe_offset, stripe_bytes,
}
use hccl_reduce_scatter.Kernel.Striped.Stripe.{IsWired, IsFit}
use hccl_reduce_scatter.Kernel.Striped.Rounds.{striped_calls-reduces}
use hccl_reduce_scatter.Tests.Bench.{memory, bench, bench-IsLawful, inputs}

abbrev two_stripes : CcuPartialReduceKernelArg
two_stripes = record {
  base = record { channels = 1 ∷ []; channel_count = 1 };
  source_count = 2;
  stripe_count = 2;
  local_source_index = 0;
  include_local_source = true;
  data_type = fp32;
  reduce_op = sum;
}

abbrev task : Inputs
task = inputs (1000 ∷ 7 ∷ 10 ∷ 7 ∷ 4 ∷ 0 ∷ 8 ∷ 8 ∷ 8 ∷ []) 20

abbrev input_at : ℕ → ℕ
input_at r = if r == 0 then 10 else 20

own_addr_lem : (r : ℕ) → is_local_source two_stripes task r ≡ true → 10 ≡ input_at r
own_addr_lem r h = ground arith

peer_memory_lem :
    (r a : ℕ)
    → r < 2
    → is_local_source two_stripes task r ≡ false
    → bench.remote (channel_at two_stripes.base (striped_channel two_stripes task r)) a ≡ memory r a
unfolding sub32
peer_memory_lem zero a h away = cc away
peer_memory_lem (suc zero) a h away = refl
peer_memory_lem (suc (suc r)) a h away = absurd (omega arith)

peer_addr_lem : (r : ℕ) → r < 2 → is_local_source two_stripes task r ≡ false → 20 ≡ input_at r
peer_addr_lem r h away = ground arith

pair-IsWired : IsWired bench two_stripes task memory input_at
pair-IsWired = record {
  own_addr = own_addr_lem;
  peer_memory = peer_memory_lem;
  peer_addr = peer_addr_lem;
}

stripe_within_lem :
    (s : ℕ) → s < 2 → stripe_offset two_stripes task s + stripe_bytes two_stripes task s ≤ 16
stripe_within_lem zero h = omega arith
stripe_within_lem (suc zero) h = omega arith
stripe_within_lem (suc (suc s)) h = absurd (omega arith)

stripes_apart_lem :
    (s t : ℕ)
    → s < t
    → t < 2
    → stripe_offset two_stripes task s + stripe_bytes two_stripes task s
      ≤ stripe_offset two_stripes task t
stripes_apart_lem zero (suc zero) lt h = omega arith
stripes_apart_lem s t lt h = absurd (omega arith)

own_memory_lem : (r a : ℕ) → is_local_source two_stripes task r ≡ true → memory 0 a ≡ memory r a
own_memory_lem r a h = ground arith

pair-IsFit : IsFit bench two_stripes task input_at 16
pair-IsFit = record {
  some_source = omega arith;
  few_sources = omega arith;
  few_stripes = omega arith;
  stripe_within = stripe_within_lem;
  stripes_apart = stripes_apart_lem;
  output_space = omega arith;
  input_space = λ r h. ground arith;
  own_source = λ r h. ground arith;
  own_apart = inr (omega arith);
}

abbrev outcome : ℕ → ℕ
outcome = perform_all bench (flights (striped_calls two_stripes task)) (memory 0)

striped_calls-reduces_example : outcome 1009 ≡ 133 + 23
striped_calls-reduces_example =
    striped_calls-reduces bench bench-IsLawful two_stripes task pair-IsWired pair-IsFit (memory 0)
      own_memory_lem (Run_total bench (striped_calls two_stripes task) (memory 0)) 1 9 (omega arith)
      (omega arith) (omega arith)

striped_calls-AllSignalled_example : AllSignalled (striped_calls two_stripes task) []
striped_calls-AllSignalled_example = striped_calls-AllSignalled two_stripes task (omega arith)
