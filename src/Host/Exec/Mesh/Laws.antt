-- ===== src/Host/Exec/Mesh/Laws.antt =====
-- The loop over the chunks ends, and its chunks cover the range from end to end.
use native.Mathlib.Nat.{mod-lt, div-add-mod, le-div_iff_mul-le, div-mul-le_self}
use hccl_reduce_scatter.Prelude.{
  ℕ, zero, suc, ◌+◌, ◌-◌, ◌*◌, ◌/◌, ◌≤◌, ◌<◌, ◌==◌, false, ◌≡◌, ◌∙◌, ap, List, ◌∷◌, map, arith, inl,
  inr, Bool-cases, ltb, ltb→lt, ltb→le, min, range_from, word64, add64, add64_small, length,
}
use hccl_reduce_scatter.Status.{hccl_success}
use hccl_reduce_scatter.Host.Types.{HostCall, max_data_size}
use hccl_reduce_scatter.Host.Exec.Context.{Task, launch, ccl_size}
use hccl_reduce_scatter.Host.Exec.Mesh.{
  chunks, direct_args, exec_direct, slot_stride, staging_args, exec_staging,
}

-- The number of chunks: `total / stride`, rounded up.
abbrev pub chunk_count : ℕ → ℕ → ℕ
chunk_count stride total = (total + stride - 1) / stride

-- The calls for `n` chunks from number `t` on: chunk `u` begins at `u * stride`.
abbrev pub chunk_calls : ℕ → ℕ → (ℕ → ℕ → HostCall) → ℕ → ℕ → List HostCall
chunk_calls stride total body t n =
    map (λ u. body (u * stride) (min stride (total - u * stride))) (range_from t n)

module _ (stride total : ℕ) (moves : 1 ≤ stride) (room : total + stride < word64) where
  before_end : (t : ℕ) → t * stride < total → t + 1 ≤ chunk_count stride total
  before_end t h = (le-div_iff_mul-le moves).1 (omega arith)

  past_end : (t : ℕ) → total ≤ t * stride → chunk_count stride total ≤ t
  past_end t h = grind (arith, div-mul-le_self (total + stride - 1) stride)

  chunks_from :
      (fuel t : ℕ) (body : ℕ → ℕ → HostCall)
      → total ≤ (t + fuel) * stride
      → chunks fuel stride total (t * stride) body
        ≡ chunk_calls stride total body t (chunk_count stride total - t)
  unfolding chunks
  chunks_from zero t body h =
      let ended : 0 ≡ chunk_count stride total - t = omega (arith, past_end t (omega arith)) in
      ap (chunk_calls stride total body t) ended
  chunks_from (suc fuel) t body h = elim (Bool-cases (ltb (t * stride) total)) [
    | inl more ↦
        let inside = ltb→lt (t * stride) total more in
        let next : add64 (t * stride) stride ≡ (t + 1) * stride =
          add64_small (t * stride) stride (omega (arith, inside)) ∙ omega arith in
        let left : suc (chunk_count stride total - (t + 1)) ≡ chunk_count stride total - t =
          omega (arith, before_end t inside) in
        rw more (
          ap
            (λ o.
              body (t * stride) (min stride (total - t * stride)) ∷ chunks fuel stride total o body)
            next
          ∙ ap (λ cs. body (t * stride) (min stride (total - t * stride)) ∷ cs)
              (chunks_from fuel (t + 1) body (omega arith))
          ∙ ap (chunk_calls stride total body t) left)
    | inr done ↦
        let ended : 0 ≡ chunk_count stride total - t =
          omega (arith, past_end t (ltb→le (t * stride) total done)) in
        rw done (ap (chunk_calls stride total body t) ended)
  ]

  fuel_enough : total ≤ (0 + (total / stride + 1)) * stride
  fuel_enough = omega (arith, div-add-mod total stride, mod-lt total {m = stride} moves)

  chunks_lem :
      (body : ℕ → ℕ → HostCall)
      → chunks (total / stride + 1) stride total 0 body
        ≡ chunk_calls stride total body 0 (chunk_count stride total)
  chunks_lem body =
      let start : 0 ≡ 0 * stride = omega arith in
      ap (λ o. chunks (total / stride + 1) stride total o body) start
      ∙ chunks_from (total / stride + 1) 0 body fuel_enough
      ∙ ap (chunk_calls stride total body 0) (omega arith)

-- With one kernel, and a chunk that leaves room for one more step of the loop's counter, the
-- direct mesh ends and makes one launch for each piece of at most 256 MB, in order: piece `u`
-- begins at `u` times that size, and the pieces are as many as it takes to cover the chunk.
pub exec_direct-covers :
    (c : Task)
    → length c.ctx.ccu_kernels ≡ 1
    → c.recv_bytes + max_data_size < word64
    → exec_direct c ≡ record {
      calls =
          chunk_calls max_data_size c.recv_bytes
            (λ offset bytes. launch c 0 0 (direct_args c offset bytes))
            0
            (chunk_count max_data_size c.recv_bytes);
      result = hccl_success;
    }
unfolding exec_direct
exec_direct-covers c one room = rw one (
    ap (λ cs. record { calls = cs; result = hccl_success })
      (chunks_lem max_data_size c.recv_bytes (omega arith) room _))

-- With one kernel, room for one more piece below the address space and a CCL buffer whose slots
-- have room for one element: the staging mesh launches its kernel once for each piece of the size
-- of a slot, in order, the last piece being what is left, and succeeds.
pub exec_staging-covers :
    (c : Task)
    → length c.ctx.ccu_kernels ≡ 1
    → c.recv_bytes + max_data_size < word64
    → 1 ≤ slot_stride c
    → exec_staging c ≡ record {
      calls =
          chunk_calls
            (slot_stride c)
            c.recv_bytes
            (λ offset bytes. launch c 0 0 (staging_args c offset bytes))
            0
            (chunk_count (slot_stride c) c.recv_bytes);
      result = hccl_success;
    }
unfolding exec_staging
exec_staging-covers c one room moves =
    let stride = slot_stride c in
    let most : stride ≤ max_data_size = omega (
      arith,
      div-mul-le_self (min max_data_size (ccl_size c / c.param.rank_size)) c.data_type_size,
    ) in
    let some_slot : (stride == 0) ≡ false = ground arith in
    rw (one, some_slot)
      (ap (λ cs. record { calls = cs; result = hccl_success })
        (chunks_lem stride c.recv_bytes moves (omega arith)
          (λ offset bytes. launch c 0 0 (staging_args c offset bytes))))
