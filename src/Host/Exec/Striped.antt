-- ===== src/Host/Exec/Striped.antt =====
-- The branch `STRIPED_SINGLE_DIE` of `ExecOp`.
pub mod Laws
use hccl_reduce_scatter.Prelude.{
  ℕ, zero, suc, ◌+◌, ◌/◌, ◌%◌, ◌||◌, not, List, [], ◌∷◌, ltb, ◌==◌, if◌then◌else◌, length, min,
  add64, mul64,
}
use hccl_reduce_scatter.Status.{hccl_success}
use hccl_reduce_scatter.Host.Types.{Plan}
use hccl_reduce_scatter.Kernel.Args.{max_single_die_stripes}
use hccl_reduce_scatter.Host.Exec.Context.{
  Task, input_addr, output_addr, launch, rank_offset, incomplete,
}

module _ (c : Task) where
  abbrev pub stripe_count : ℕ
  stripe_count = min c.param.rank_size max_single_die_stripes

  abbrev pub stripe_elements : ℕ
  stripe_elements = c.param.count / stripe_count

  abbrev pub large_stripe_count : ℕ
  large_stripe_count = c.param.count % stripe_count

  abbrev pub bytes_of_stripe : ℕ → ℕ
  bytes_of_stripe stripe =
      mul64 (add64 stripe_elements (if ltb stripe large_stripe_count then 1 else 0))
        c.data_type_size

  -- The loop that appends offset and size of each stripe, with `n` left.
  unfoldable pub stripe_args : ℕ → ℕ → ℕ → List ℕ
  stripe_args zero stripe offset = []
  stripe_args (suc n) stripe offset =
      offset
      ∷ bytes_of_stripe stripe
      ∷ stripe_args n (stripe + 1) (add64 offset (bytes_of_stripe stripe))

  -- `stripeOffset` after that loop.
  unfoldable pub stripe_end : ℕ → ℕ → ℕ → ℕ
  stripe_end zero stripe offset = offset
  stripe_end (suc n) stripe offset =
      stripe_end n (stripe + 1) (add64 offset (bytes_of_stripe stripe))

  abbrev pub striped_args : List ℕ
  striped_args =
      output_addr c
      ∷ c.output_token
      ∷ input_addr c
      ∷ c.input_token
      ∷ rank_offset c
      ∷ stripe_args stripe_count 0 0

  unfoldable pub exec_striped : Plan
  exec_striped =
      if not (length c.ctx.ccu_kernels == 1) || not (length c.ctx.threads == 1)
      then incomplete
      else if not (stripe_end stripe_count 0 0 == c.recv_bytes)
      then incomplete
      else record { calls = launch c 0 0 striped_args ∷ []; result = hccl_success }
