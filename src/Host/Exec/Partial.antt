-- ===== src/Host/Exec/Partial.antt =====
-- The branches `DUAL_DIE_PARTIAL` and `SMALL_CLOS_PARALLEL` of `ExecOp`.
pub mod Laws
use hccl_reduce_scatter.Prelude.{
  ℕ, ◌-◌, ◌*◌, ◌/◌, ◌%◌, ◌||◌, ◌&&◌, Bool, not, List, [], ◌∷◌, map, flat_map, ltb, leb, ◌==◌,
  if◌then◌else◌, length, min, range_from, add64, mul64, word64,
}
use hccl_reduce_scatter.Status.{hccl_success}
use hccl_reduce_scatter.Host.Types.{HostCall, notify_record_on_thread, notify_wait_on_thread, Plan}
use hccl_reduce_scatter.Host.Exec.Context.{
  Task, input_addr, output_addr, ccl_addr, ccl_size, thread, launch, rank_offset, incomplete,
}

abbrev pub preferred_tile_bytes : ℕ
preferred_tile_bytes = 8 * 1024 * 1024

module _ (dual_die : Bool) (c : Task) where
  abbrev pub local_source_count : ℕ
  local_source_count = if dual_die then length c.ctx.local_ranks else c.param.rank_size

  abbrev pub cross_source_count : ℕ
  cross_source_count = if dual_die then length c.ctx.cross_peers else 0

  abbrev pub scratch_slot_count : ℕ
  scratch_slot_count = mul64 2 (add64 local_source_count cross_source_count)

  -- `tileCapacity` after its last assignment.
  abbrev pub partial_tile : ℕ
  partial_tile =
      let preferred =
        if dual_die
        then min preferred_tile_bytes ((ccl_size c - c.recv_bytes) / scratch_slot_count)
        else c.recv_bytes in
      min preferred c.recv_bytes / c.data_type_size * c.data_type_size

  abbrev pub local_scratch_bytes : ℕ
  local_scratch_bytes = mul64 (mul64 2 local_source_count) partial_tile

  abbrev pub cross_scratch_bytes : ℕ
  cross_scratch_bytes = mul64 (mul64 2 cross_source_count) partial_tile

  abbrev pub cross_scratch_addr : ℕ
  cross_scratch_addr = add64 (ccl_addr c) local_scratch_bytes

  abbrev pub cross_partial_addr : ℕ
  cross_partial_addr = add64 cross_scratch_addr cross_scratch_bytes

  abbrev pub full_tile_count : ℕ
  full_tile_count = c.recv_bytes / partial_tile

  -- `UINT64_MAX - pairCount`
  abbrev pub pair_repeat : ℕ
  pair_repeat = word64 - 1 - full_tile_count / 2

  -- `scratchBase + (bank * sourceCount + source) * tileCapacity`
  abbrev pub slot_addr : ℕ → ℕ → ℕ → ℕ → ℕ
  slot_addr base sources bank source =
      add64 base (mul64 (add64 (mul64 bank sources) source) partial_tile)

  -- `makePartialArgs`
  abbrev pub partial_args : ℕ → ℕ → ℕ → ℕ → List ℕ
  partial_args out_addr out_token base sources =
      out_addr
      ∷ out_token
      ∷ input_addr c
      ∷ c.input_token
      ∷ c.ccl_token
      ∷ rank_offset c
      ∷ partial_tile
      ∷ pair_repeat
      ∷ full_tile_count % 2
      ∷ c.recv_bytes % partial_tile
      ∷ flat_map (λ bank. map (slot_addr base sources bank) (range_from 0 sources)) (range_from 0 2)

  abbrev pub local_args : List ℕ
  local_args = partial_args (output_addr c) c.output_token (ccl_addr c) local_source_count

  abbrev pub cross_args : List ℕ
  cross_args = partial_args cross_partial_addr c.ccl_token cross_scratch_addr cross_source_count

  abbrev pub merge_args : List ℕ
  merge_args = output_addr c ∷ c.output_token ∷ cross_partial_addr ∷ c.ccl_token ∷ c.recv_bytes ∷ []

  abbrev pub dual_die_calls : List HostCall
  dual_die_calls =
      notify_record_on_thread (thread c 0) (thread c 1) 0
      ∷ notify_wait_on_thread (thread c 1) 0
      ∷ launch c 0 0 local_args
      ∷ launch c 1 1 cross_args
      ∷ notify_wait_on_thread (thread c 0) 0
      ∷ notify_record_on_thread (thread c 1) (thread c 0) 0
      ∷ launch c 0 2 merge_args
      ∷ []

  -- The scratch space does not fit the buffer.
  abbrev pub overflows : Bool
  overflows =
      if dual_die
      then ltb (add64 (ccl_addr c) (ccl_size c)) (add64 cross_partial_addr c.recv_bytes)
      else ltb (ccl_size c) local_scratch_bytes

  unfoldable pub exec_partial : Plan
  exec_partial =
      if not (length c.ctx.ccu_kernels == (if dual_die then 3 else 1))
        || not (length c.ctx.threads == (if dual_die then 2 else 1))
      then incomplete
      else if dual_die && (local_source_count == 0 || cross_source_count == 0)
      then incomplete
      else if dual_die && leb (ccl_size c) c.recv_bytes
      then incomplete
      else if partial_tile == 0
      then incomplete
      else if overflows
      then incomplete
      else record {
        calls = if dual_die then dual_die_calls else launch c 0 0 local_args ∷ [];
        result = hccl_success;
      }
