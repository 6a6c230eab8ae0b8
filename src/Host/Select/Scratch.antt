-- ===== src/Host/Select/Scratch.antt =====
-- The scratch space of the small algorithms.
use hccl_reduce_scatter.Prelude.{
  ◌*◌, ◌/◌, ◌≤◌, ◌<◌, ◌≡◌, refl, ap, ◌∙◌, sym, true, false, arith, ltb, le→ltb, ◌==◌, length, min,
  [], ◌∷◌, mul64, mul64_small, word64, ==_positive,
}
use hccl_reduce_scatter.Status.{hccl_success}
use hccl_reduce_scatter.Host.Exec.Context.{Task, ccl_size, launch}
use hccl_reduce_scatter.Host.Exec.Small.{exec_small_staging_tree, small_tree_args}
use hccl_reduce_scatter.Host.Exec.Partial.{
  exec_partial, partial_tile, local_scratch_bytes, overflows, local_args,
}
use hccl_reduce_scatter.Host.Select.{
  small_input_bytes, input_bytes, use_small_staging_tree, use_small_clos_parallel,
}

-- A task of 4-byte elements whose whole input has a size below the address space, with a CCL
-- buffer of 1 MB at least.
pub record IsSmallTask (c : Task) : Type 0 where
  pub float_size : c.data_type_size ≡ 4
  pub chunk_bytes : c.recv_bytes ≡ c.param.count * 4
  pub input_fits : c.param.count * 4 * c.param.rank_size < word64
  pub some_buffer : 2 * small_input_bytes ≤ ccl_size c

module _ (c : Task) (small : IsSmallTask c) where
  input_lem :
      1 ≤ c.param.rank_size
      → input_bytes c.param.count c.param.rank_size ≡ c.recv_bytes * c.param.rank_size
  input_lem some =
      let chunk : c.param.count * 4 < word64 = grind (arith, small.input_fits, some) in
      ap (λ b. mul64 b c.param.rank_size) (mul64_small c.param.count 4 chunk)
      ∙ mul64_small (c.param.count * 4) c.param.rank_size small.input_fits
      ∙ ap (λ b. b * c.param.rank_size) (sym small.chunk_bytes)

  -- For a task of 4-byte elements whose whole input has a size below the address space, with a CCL
  -- buffer of 1 MB at least, one kernel and one thread: where the small staging tree is chosen, its
  -- check of the scratch space passes, and the branch makes its launch and succeeds.
  pub small_staging_tree-fits :
      use_small_staging_tree c.param.count c.param.rank_size ≡ true
      → length c.ctx.ccu_kernels ≡ 1
      → length c.ctx.threads ≡ 1
      → exec_small_staging_tree c
        ≡ record { calls = launch c 0 0 (small_tree_args c) ∷ []; result = hccl_success }
  unfolding exec_small_staging_tree
  small_staging_tree-fits chosen kernels threads =
      let ranks : c.param.rank_size ≡ 16 = ground arith in
      let input : input_bytes c.param.count c.param.rank_size ≤ small_input_bytes = ground arith in
      let total = input_lem (omega arith) in
      let chunk : c.recv_bytes * 16 ≤ small_input_bytes =
        omega (arith, input, total, ap (λ r. c.recv_bytes * r) ranks) in
      let buffer = small.some_buffer in
      let fits : ltb (ccl_size c / c.param.rank_size) c.recv_bytes ≡ false =
        rw ranks (le→ltb (ccl_size c / 16) c.recv_bytes (omega arith)) in
      rw (kernels, threads, fits) refl

  -- For a task of 4-byte elements whose whole input has a size below the address space, with a CCL
  -- buffer of 1 MB at least, one kernel and one thread: where the parallel reduction of twelve
  -- ranks is chosen, the whole chunk is one tile and its two banks of slots fit, and the branch
  -- makes its launch and succeeds.
  pub small_clos_parallel-fits :
      use_small_clos_parallel c.param.count c.param.rank_size ≡ true
      → length c.ctx.ccu_kernels ≡ 1
      → length c.ctx.threads ≡ 1
      → (exec_partial false c
          ≡ record { calls = launch c 0 0 (local_args false c) ∷ []; result = hccl_success })
        × (partial_tile false c ≡ c.recv_bytes)
        × (local_scratch_bytes false c ≤ ccl_size c)
  unfolding exec_partial
  small_clos_parallel-fits chosen kernels threads =
      let ranks : c.param.rank_size ≡ 12 = ground arith in
      let input : input_bytes c.param.count c.param.rank_size ≤ small_input_bytes = ground arith in
      let some : c.param.rank_size ≤ c.param.count = ground arith in
      let total = input_lem (omega arith) in
      let chunk : c.recv_bytes * 12 ≤ small_input_bytes =
        omega (arith, input, total, ap (λ r. c.recv_bytes * r) ranks) in
      let buffer = small.some_buffer in
      let tile : partial_tile false c ≡ c.recv_bytes =
        ap (λ d. min c.recv_bytes c.recv_bytes / d * d) small.float_size
        ∙ omega (arith, small.chunk_bytes) in
      let scratch : local_scratch_bytes false c ≡ 24 * c.recv_bytes =
        ap (mul64 (mul64 2 c.param.rank_size)) tile
        ∙ ap (λ r. mul64 (mul64 2 r) c.recv_bytes) ranks
        ∙ ap (λ n. mul64 n c.recv_bytes) (mul64_small 2 12 (omega arith))
        ∙ mul64_small 24 c.recv_bytes (omega arith) in
      let room : local_scratch_bytes false c ≤ ccl_size c = omega (arith, scratch) in
      let no_tile : (partial_tile false c == 0) ≡ false =
        ==_positive (partial_tile false c) (omega (arith, small.chunk_bytes)) in
      let fits : overflows false c ≡ false =
        le→ltb (ccl_size c) (local_scratch_bytes false c) room in
      (rw (kernels, threads, no_tile, fits) refl, tile, room)
