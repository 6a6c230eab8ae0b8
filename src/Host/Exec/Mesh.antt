-- ===== src/Host/Exec/Mesh.antt =====
-- The branches `DIRECT_MESH` and `STAGING_MESH` of `ExecOp`: one launch for each chunk.
pub mod Laws
use hccl_reduce_scatter.Prelude.{
  ℕ, zero, suc, ◌+◌, ◌-◌, ◌*◌, ◌/◌, not, List, [], ◌∷◌, ◌++◌, map, ltb, ◌==◌, if◌then◌else◌, length,
  min, range_from, add64, mul64,
}
use hccl_reduce_scatter.Status.{hccl_success}
use hccl_reduce_scatter.Host.Types.{HostCall, Plan, max_data_size}
use hccl_reduce_scatter.Host.Exec.Context.{
  Task, input_addr, output_addr, ccl_addr, ccl_size, launch, rank_offset, incomplete,
}

-- `for (offset = 0; offset < total; offset += stride)`, on fuel; `body` is given the offset and
-- the size of the chunk.
unfoldable pub chunks : ℕ → ℕ → ℕ → ℕ → (ℕ → ℕ → HostCall) → List HostCall
chunks zero stride total offset body = []
chunks (suc fuel) stride total offset body =
    let rest =
      body offset (min stride (total - offset))
      ∷ chunks fuel stride total (add64 offset stride) body in
    if ltb offset total then rest else []

module _ (c : Task) where
  abbrev pub direct_args : ℕ → ℕ → List ℕ
  direct_args offset bytes =
      add64 (output_addr c) offset
      ∷ c.output_token
      ∷ input_addr c
      ∷ c.input_token
      ∷ add64 (rank_offset c) offset
      ∷ bytes
      ∷ []

  unfoldable pub exec_direct : Plan
  exec_direct = if not (length c.ctx.ccu_kernels == 1) then incomplete else record {
    calls =
        chunks (c.recv_bytes / max_data_size + 1) max_data_size c.recv_bytes 0
          (λ offset bytes. launch c 0 0 (direct_args offset bytes));
    result = hccl_success;
  }

  abbrev pub slot_stride : ℕ
  slot_stride =
      min max_data_size (ccl_size c / c.param.rank_size) / c.data_type_size * c.data_type_size

  abbrev pub staging_args : ℕ → ℕ → List ℕ
  staging_args offset bytes =
      add64 (output_addr c) offset
        ∷ c.output_token
        ∷ c.input_token
        ∷ ccl_addr c
        ∷ c.ccl_token
        ∷ bytes
        ∷ mul64 c.param.my_rank slot_stride
        ∷ map (λ peer. add64 (add64 (input_addr c) (mul64 peer c.recv_bytes)) offset)
            (range_from 0 c.param.rank_size)
      ++ map (λ source. add64 (ccl_addr c) (mul64 source slot_stride))
          (range_from 0 c.param.rank_size)

  unfoldable pub exec_staging : Plan
  exec_staging =
      if not (length c.ctx.ccu_kernels == 1)
      then incomplete
      else if slot_stride == 0
      then incomplete
      else record {
        calls =
            chunks (c.recv_bytes / slot_stride + 1) slot_stride c.recv_bytes 0
              (λ offset bytes. launch c 0 0 (staging_args offset bytes));
        result = hccl_success;
      }
