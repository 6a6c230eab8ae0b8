-- ===== src/Host/Exec/Hierarchical.antt =====
-- The branches `HIERARCHICAL` and `HIERARCHICAL_STAGING` of `ExecOp`: a pipeline over tiles, in
-- which a tile's partials lie in one of two banks.
use hccl_reduce_scatter.Prelude.{
  ℕ, ◌+◌, ◌-◌, ◌*◌, ◌/◌, ◌%◌, ◌||◌, Bool, not, List, [], ◌∷◌, ◌++◌, map, flat_map, ltb, leb, ◌==◌,
  if◌then◌else◌, length, min, max, range_from, add64, sub64, mul64, is_empty,
}
use hccl_reduce_scatter.Status.{hccl_success}
use hccl_reduce_scatter.Host.Types.{HostCall, notify_record_on_thread, notify_wait_on_thread, Plan}
use hccl_reduce_scatter.Host.Exec.Context.{
  Task, input_addr, output_addr, ccl_addr, ccl_size, thread, launch, incomplete,
}

abbrev pub pipeline_tile_bytes : ℕ
pipeline_tile_bytes = 4 * 1024 * 1024

module _ (staging : Bool) (c : Task) where
  abbrev pub local_size : ℕ
  local_size = length c.ctx.local_ranks

  abbrev pub target_count : ℕ
  target_count = length c.ctx.target_ranks

  abbrev pub staging_slot_count : ℕ
  staging_slot_count = if staging then 2 * local_size else 0

  abbrev pub partial_target_count : ℕ
  partial_target_count = max (target_count - 1) 1

  abbrev pub total_slot_count : ℕ
  total_slot_count = staging_slot_count + 2 * partial_target_count

  -- `alignedTileCapacity`
  abbrev pub aligned_tile : ℕ
  aligned_tile =
      min pipeline_tile_bytes (ccl_size c / total_slot_count) / c.data_type_size * c.data_type_size

  abbrev pub tile_count : ℕ
  tile_count = sub64 (add64 c.recv_bytes aligned_tile) 1 / aligned_tile

  abbrev pub slot_at : ℕ → ℕ
  slot_at slot = add64 (ccl_addr c) (mul64 slot aligned_tile)

  abbrev pub partial_slot : ℕ → ℕ → ℕ
  partial_slot bank target = sub64 (staging_slot_count + bank * partial_target_count + target) 1

  -- `tileBytes`, the part of a chunk that goes through the first bank of staging slots.
  abbrev pub head_bytes : ℕ → ℕ
  head_bytes bytes =
      mul64 (add64 bytes c.data_type_size / mul64 2 c.data_type_size) c.data_type_size

  unfoldable pub group_args : ℕ → ℕ → ℕ → List ℕ
  group_args bank offset bytes =
      input_addr c
      ∷ c.input_token
      ∷ ((if staging then c.ccl_token ∷ [] else [])
          ++ (bytes
              ∷ ((if staging then head_bytes bytes ∷ sub64 bytes (head_bytes bytes) ∷ [] else [])
                  ++ (map (λ target. add64 (mul64 target c.recv_bytes) offset) c.ctx.target_ranks
                      ++ ((if staging then map slot_at (range_from 0 (2 * local_size)) else [])
                          ++ (add64 (output_addr c) offset
                              ∷ (map (λ target. slot_at (partial_slot bank target))
                                    (range_from 1 (target_count - 1))
                                  ++ (c.output_token
                                      ∷ map (λ target. c.ccl_token)
                                          (range_from 1 (target_count - 1))))))))))

  unfoldable pub exchange_args : ℕ → ℕ → ℕ → List ℕ
  exchange_args bank offset bytes =
      add64 (output_addr c) offset
      ∷ c.output_token
      ∷ c.ccl_token
      ∷ bytes
      ∷ map (λ target. slot_at (partial_slot bank target)) c.ctx.cross_send_target_indices

  -- The loop's body for one tile.
  unfoldable pub tile_calls : ℕ → List HostCall
  tile_calls tile =
      let bank = tile % 2 in
      let offset = mul64 tile aligned_tile in
      let bytes = min aligned_tile (sub64 c.recv_bytes offset) in
      (if leb 2 tile then notify_wait_on_thread (thread c 0) bank ∷ [] else [])
      ++ (launch c 0 0 (group_args bank offset bytes)
          ∷ notify_record_on_thread (thread c 0) (thread c 1) bank
          ∷ notify_wait_on_thread (thread c 1) bank
          ∷ launch c 1 1 (exchange_args bank offset bytes)
          ∷ notify_record_on_thread (thread c 1) (thread c 0) bank
          ∷ [])

  -- `firstOutstanding`
  abbrev pub first_outstanding : ℕ
  first_outstanding = if ltb 2 tile_count then tile_count - 2 else 0

  unfoldable pub join_calls : List HostCall
  join_calls =
      map (λ tile. notify_wait_on_thread (thread c 0) (tile % 2))
        (range_from first_outstanding (tile_count - first_outstanding))

  unfoldable pub exec_hierarchical : Plan
  exec_hierarchical =
      if not (length c.ctx.ccu_kernels == 2)
        || not (length c.ctx.threads == 2)
        || is_empty c.ctx.local_ranks
        || is_empty c.ctx.target_ranks
      then incomplete
      else if aligned_tile == 0
      then incomplete
      else record {
        calls = flat_map tile_calls (range_from 0 tile_count) ++ join_calls;
        result = hccl_success;
      }
