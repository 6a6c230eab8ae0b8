-- ===== src/Host/Select/Laws.antt =====
-- The tests of the selection exclude one another, and the tag names the algorithm.
use native.Mathlib.Nat.{mul-le-mul}
use hccl_reduce_scatter.Prelude.{
  ℕ, ap, ◌+◌, ◌*◌, ◌≤◌, ◌<◌, ◌≡◌, Bool, arith, inl, inr, Bool-cases, ltb, if◌then◌else◌, mul64,
  mul64_small,
}
use hccl_reduce_scatter.Host.Select.{
  input_bytes, small_input_bytes, use_dual_die, use_small_staging_tree, use_small_clos_parallel,
  use_direct, use_striped_single_die, algorithm_tag, built_algorithm, algorithm_of,
}

abbrev pub count_true : Bool → ℕ
count_true b = if b then 1 else 0

-- For every count and every number of ranks from 2 to 16, exactly one of the five algorithms is
-- chosen, and the algorithm that is built is the one that the tag names, so a context that is
-- found under a tag was built for the algorithm that is chosen now.
pub selection-decides :
    (recv_count rank_size : ℕ)
    → 2 ≤ rank_size
    → rank_size ≤ 16
    → (count_true (use_dual_die recv_count rank_size)
          + count_true (use_small_staging_tree recv_count rank_size)
          + count_true (use_small_clos_parallel recv_count rank_size)
          + count_true (use_direct recv_count rank_size)
          + count_true (use_striped_single_die recv_count rank_size)
        ≡ 1)
      × (built_algorithm recv_count rank_size ≡ algorithm_of (algorithm_tag recv_count rank_size))
selection-decides recv_count rank_size several few = elim (Bool-cases (ltb recv_count rank_size)) [
  | inl tiny ↦
      let bytes : input_bytes recv_count rank_size ≤ small_input_bytes =
        tiny_bytes recv_count rank_size few (ground arith) in
      (ground arith, ground arith)
  | inr enough ↦ (ground arith, ground arith)
]
  where
    tiny_bytes :
        (count ranks : ℕ) → ranks ≤ 16 → count < ranks → input_bytes count ranks ≤ small_input_bytes
    tiny_bytes count ranks h k =
        let bytes : mul64 count 4 ≡ count * 4 = mul64_small count 4 (omega arith) in
        let four : count * 4 ≤ 64 = omega arith in
        let product : count * 4 * ranks ≤ 64 * 16 = mul-le-mul four h in
        omega (
          arith,
          ap (λ b. mul64 b ranks) bytes,
          mul64_small (count * 4) ranks (omega (arith, product)),
          product,
        )
