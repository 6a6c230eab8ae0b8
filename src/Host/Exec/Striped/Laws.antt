-- ===== src/Host/Exec/Striped/Laws.antt =====
-- The stripes cut the chunk of a rank without gap or overlap.
use native.Mathlib.Nat.{mod-lt, div-add-mod}
use hccl_reduce_scatter.Prelude.{
  ℕ, zero, suc, ◌+◌, ◌-◌, ◌*◌, ◌≤◌, ◌<◌, ◌≡◌, sym, ◌∙◌, ap, [], ◌∷◌, arith, ltb, length, get_or,
  min, word64, add64, mul64, add64_small, mul64_small, if◌then◌else◌,
}
use hccl_reduce_scatter.Status.{hccl_success}
use hccl_reduce_scatter.Host.Exec.Context.{Task, launch}
use hccl_reduce_scatter.Host.Exec.Striped.{
  stripe_count, stripe_elements, large_stripe_count, bytes_of_stripe, stripe_args, stripe_end,
  striped_args, exec_striped,
}

-- A task on a 4-byte type, for at least one rank, whose chunk fits the address space.
pub record IsSized (c : Task) : Type 0 where
  pub float_size : c.data_type_size ≡ 4
  pub some_rank : 1 ≤ c.param.rank_size
  pub chunk_bytes : c.recv_bytes ≡ c.param.count * 4
  pub chunk_fits : c.param.count * 4 < word64

double_suc : (j : ℕ) → 2 * suc j ≡ suc (suc (2 * j))
double_suc j = omega arith

double_suc_one : (j : ℕ) → 2 * suc j + 1 ≡ suc (suc (2 * j + 1))
double_suc_one j = omega arith

past_five : (n : ℕ) → 5 + n ≡ suc (suc (suc (suc (suc n))))
past_five n = omega arith

module _ (c : Task) (sized : IsSized c) where
  -- The elements before a stripe: its even share, and one more for each large stripe before it.
  abbrev pub elements_before : ℕ → ℕ
  elements_before stripe = stripe * stripe_elements c + min stripe (large_stripe_count c)

  elements_before_next :
      (stripe : ℕ)
      → elements_before (stripe + 1)
        ≡ elements_before stripe
          + stripe_elements c
          + (if ltb stripe (large_stripe_count c) then 1 else 0)
  elements_before_next stripe = grind arith

  pub elements_before_end : elements_before (stripe_count c) ≡ c.param.count
  elements_before_end = omega (
    arith,
    div-add-mod c.param.count (stripe_count c),
    mod-lt c.param.count {m = stripe_count c} (omega (arith, sized.some_rank)),
  )

  pub elements_before_mono : (s t : ℕ) → s ≤ t → elements_before s ≤ elements_before t
  elements_before_mono s t h = grind arith

  pub elements_before_le : (s : ℕ) → s ≤ stripe_count c → elements_before s ≤ c.param.count
  elements_before_le s h =
      omega (arith, elements_before_mono s (stripe_count c) h, elements_before_end)

  -- The size of a stripe, without wrap-around.
  bytes_of_stripe_lem :
      (s : ℕ)
      → s < stripe_count c
      → bytes_of_stripe c s ≡ (elements_before (s + 1) - elements_before s) * 4
  bytes_of_stripe_lem s h =
      let next = elements_before_next s in
      let below = elements_before_le (s + 1) (omega arith) in
      let extra : ℕ = if ltb s (large_stripe_count c) then 1 else 0 in
      let small : stripe_elements c + extra < word64 =
        omega (arith, next, below, sized.chunk_fits) in
      let size : bytes_of_stripe c s ≡ mul64 (add64 (stripe_elements c) extra) 4 =
        ap (mul64 (add64 (stripe_elements c) extra)) sized.float_size in
      size
      ∙ ap (λ e. mul64 e 4) (add64_small (stripe_elements c) extra small)
      ∙ mul64_small (stripe_elements c + extra) 4 (omega (arith, next, below, sized.chunk_fits))
      ∙ omega (arith, next)

  offset_next :
      (s : ℕ)
      → s < stripe_count c
      → add64 (elements_before s * 4) (bytes_of_stripe c s) ≡ elements_before (s + 1) * 4
  offset_next s h =
      ap (add64 (elements_before s * 4)) (bytes_of_stripe_lem s h)
      ∙ add64_small _ _ (
          omega (
            arith,
            elements_before_next s,
            elements_before_le (s + 1) (omega arith),
            sized.chunk_fits,
          ))
      ∙ omega (arith, elements_before_next s)

  stripe_end_from :
      (n s : ℕ)
      → s + n ≤ stripe_count c
      → stripe_end c n s (elements_before s * 4) ≡ elements_before (s + n) * 4
  unfolding stripe_end
  stripe_end_from zero s h = ap (λ t. elements_before t * 4) (omega arith)
  stripe_end_from (suc n) s h =
      ap (stripe_end c n (s + 1)) (offset_next s (omega arith))
      ∙ stripe_end_from n (s + 1) (omega arith)
      ∙ ap (λ t. elements_before t * 4) (omega arith)

  -- The entries of the argument list: offset and size of each stripe.
  stripe_args_from :
      (n s j : ℕ)
      → s + n ≤ stripe_count c
      → j < n
      → (get_or (stripe_args c n s (elements_before s * 4)) (2 * j) 0 ≡ elements_before (s + j) * 4)
        × (get_or (stripe_args c n s (elements_before s * 4)) (2 * j + 1) 0
            ≡ (elements_before (s + j + 1) - elements_before (s + j)) * 4)
  unfolding stripe_args
  stripe_args_from zero s j h k = elim k [ ]
  stripe_args_from (suc n) s zero h k = (
    ap (λ t. elements_before t * 4) (omega arith),
    bytes_of_stripe_lem s (omega arith)
        ∙ ap (λ t. (elements_before (t + 1) - elements_before t) * 4) (omega arith),
  )
  stripe_args_from (suc n) s (suc j) h k =
      let entries = stripe_args c (suc n) s (elements_before s * 4) in
      let rest = stripe_args_from n (s + 1) j (omega arith) (omega arith) in
      let over : s + 1 + j ≡ s + suc j = omega arith in
      (
        ap (λ t. get_or entries t 0) (double_suc j)
            ∙ ap (λ o. get_or (stripe_args c n (s + 1) o) (2 * j) 0) (offset_next s (omega arith))
            ∙ rest.0
            ∙ ap (λ t. elements_before t * 4) over,
        ap (λ t. get_or entries t 0) (double_suc_one j)
            ∙ ap (λ o. get_or (stripe_args c n (s + 1) o) (2 * j + 1) 0)
                (offset_next s (omega arith))
            ∙ rest.1
            ∙ ap (λ t. (elements_before (t + 1) - elements_before t) * 4) over,
      )

  -- The check `stripeOffset != recvBytes` never fires.
  stripe_end_lem : stripe_end c (stripe_count c) 0 0 ≡ c.recv_bytes
  stripe_end_lem =
      let first : 0 ≡ elements_before 0 * 4 = omega arith in
      ap (stripe_end c (stripe_count c) 0) first
      ∙ stripe_end_from (stripe_count c) 0 (omega arith)
      ∙ ap (λ t. elements_before t * 4) (omega arith)
      ∙ ap (λ t. t * 4) elements_before_end
      ∙ sym sized.chunk_bytes

  no_offset : 0 ≡ elements_before 0 * 4
  no_offset = omega arith

  pub offset_arg :
      (stripe : ℕ)
      → stripe < stripe_count c
      → get_or (striped_args c) (5 + 2 * stripe) 0 ≡ elements_before stripe * 4
  offset_arg stripe h =
      let entry = (stripe_args_from (stripe_count c) 0 stripe (omega arith) h).0 in
      ap (λ t. get_or (striped_args c) t 0) (past_five (2 * stripe))
      ∙ ap (λ o. get_or (stripe_args c (stripe_count c) 0 o) (2 * stripe) 0) no_offset
      ∙ entry
      ∙ ap (λ t. elements_before t * 4) (omega arith)

  pub bytes_arg :
      (stripe : ℕ)
      → stripe < stripe_count c
      → get_or (striped_args c) (5 + 2 * stripe + 1) 0
        ≡ (elements_before (stripe + 1) - elements_before stripe) * 4
  bytes_arg stripe h =
      let entry = (stripe_args_from (stripe_count c) 0 stripe (omega arith) h).1 in
      ap (λ t. get_or (striped_args c) t 0) (omega arith ∙ past_five (2 * stripe + 1))
      ∙ ap (λ o. get_or (stripe_args c (stripe_count c) 0 o) (2 * stripe + 1) 0) no_offset
      ∙ entry
      ∙ ap (λ t. (elements_before (t + 1) - elements_before t) * 4) (omega arith)

  -- For a task on a 4-byte type, for at least one rank, whose chunk fits the address space, with one
  -- kernel and one thread, the branch makes one launch and succeeds: its check of the
  -- partition never fails. In the arguments of the launch each stripe begins where the one before
  -- it ends, the first at 0 and the last one ending at the size of the chunk.
  pub exec_striped-partitions :
      length c.ctx.ccu_kernels ≡ 1
      → length c.ctx.threads ≡ 1
      → (stripe : ℕ) → stripe < stripe_count c
      → (exec_striped c
          ≡ record { calls = launch c 0 0 (striped_args c) ∷ []; result = hccl_success })
        × (get_or (striped_args c) (5 + 2 * stripe) 0 ≡ elements_before stripe * 4)
        × (get_or (striped_args c) (5 + 2 * stripe) 0
              + get_or (striped_args c) (5 + 2 * stripe + 1) 0
            ≡ elements_before (stripe + 1) * 4)
        × (elements_before 0 ≡ 0)
        × (elements_before (stripe_count c) * 4 ≡ c.recv_bytes)
  unfolding exec_striped
  exec_striped-partitions one_kernel one_thread stripe h = (
    ground (arith, stripe_end_lem),
    offset_arg stripe h,
    omega (
      arith,
      offset_arg stripe h,
      bytes_arg stripe h,
      elements_before_mono stripe (stripe + 1) (omega arith),
    ),
    omega arith,
    omega (arith, elements_before_end, sized.chunk_bytes),
  )
