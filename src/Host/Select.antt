-- ===== src/Host/Select.antt =====
-- The choice of the algorithm in `HcclReduceScatter` (op_host/reduce_scatter.cc). The rank size is
-- at most 16 there, and `sizeof(float)` is 4.
pub mod Laws
pub mod Scratch
use hccl_reduce_scatter.Prelude.{
  ℕ, ◌*◌, ◌&&◌, ◌||◌, Bool, not, ltb, leb, ◌==◌, if◌then◌else◌, mul64,
}
use hccl_reduce_scatter.Host.Types.{
  ReduceScatterAlgorithm, direct_mesh, dual_die_partial, striped_single_die, small_staging_tree,
  small_clos_parallel,
}

abbrev pub small_input_bytes : ℕ
small_input_bytes = 512 * 1024

-- `algorithmTag`, the part of the tag under which the engine context is kept.
pub data AlgorithmTag : Type 0 where
  dual_die_v3_3 small_staging_tree_v1 small_clos_v3_3 direct_small_v1 : AlgorithmTag
  striped_single_die_v2 : AlgorithmTag

module _ (recv_count rank_size : ℕ) where
  abbrev pub input_bytes : ℕ
  input_bytes = mul64 (mul64 recv_count 4) rank_size

  abbrev pub use_dual_die : Bool
  use_dual_die = (rank_size == 16 || rank_size == 12) && ltb small_input_bytes input_bytes

  abbrev pub use_small_staging_tree : Bool
  use_small_staging_tree =
      rank_size == 16 && leb input_bytes small_input_bytes && leb rank_size recv_count

  abbrev pub use_small_clos_parallel : Bool
  use_small_clos_parallel =
      rank_size == 12 && leb input_bytes small_input_bytes && leb rank_size recv_count

  abbrev pub use_direct : Bool
  use_direct = ltb recv_count rank_size || (rank_size == 4 && leb input_bytes small_input_bytes)

  abbrev pub use_striped_single_die : Bool
  use_striped_single_die =
      not use_dual_die
      && not use_small_staging_tree
      && not use_small_clos_parallel
      && not use_direct

  abbrev pub algorithm_tag : AlgorithmTag
  algorithm_tag =
      if use_dual_die
      then dual_die_v3_3
      else if use_small_staging_tree
      then small_staging_tree_v1
      else if use_small_clos_parallel
      then small_clos_v3_3
      else if use_direct
      then direct_small_v1
      else striped_single_die_v2

  -- The algorithm that the branches of step 2.2 register for more than one rank.
  abbrev pub registered_algorithm : ReduceScatterAlgorithm
  registered_algorithm =
      if use_dual_die
      then dual_die_partial
      else if use_small_staging_tree
      then small_staging_tree
      else if use_small_clos_parallel
      then small_clos_parallel
      else if use_striped_single_die
      then striped_single_die
      else direct_mesh

  -- The algorithm of the context after step 2.2, which registers nothing for one rank.
  abbrev pub built_algorithm : ReduceScatterAlgorithm
  built_algorithm = if ltb 1 rank_size then registered_algorithm else direct_mesh

-- The algorithm that a tag stands for.
abbrev pub algorithm_of : AlgorithmTag → ReduceScatterAlgorithm
algorithm_of dual_die_v3_3 = dual_die_partial
algorithm_of small_staging_tree_v1 = small_staging_tree
algorithm_of small_clos_v3_3 = small_clos_parallel
algorithm_of direct_small_v1 = direct_mesh
algorithm_of striped_single_die_v2 = striped_single_die
