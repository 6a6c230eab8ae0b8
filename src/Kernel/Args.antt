-- ===== src/Kernel/Args.antt =====
-- The kernels' arguments (include/custom.h). The array of channels is a list: `make_shared`
-- fills an argument with zeros, so an entry that was never written is 0.
use hccl_reduce_scatter.Prelude.{ℕ, Bool, List, get_or, add64}
use hccl_reduce_scatter.Ccu.{HcclDataType, HcclReduceOp, Address}

abbrev pub max_rank_size : ℕ
max_rank_size = 16

abbrev pub max_local_rank_size : ℕ
max_local_rank_size = 8

abbrev pub max_hierarchical_targets : ℕ
max_hierarchical_targets = 3

abbrev pub max_cross_peers : ℕ
max_cross_peers = 2

abbrev pub max_single_die_stripes : ℕ
max_single_die_stripes = 4

pub record CcuKernelArgBase : Type 0 where
  pub channels : List ℕ
  pub channel_count : ℕ

abbrev pub channel_at : CcuKernelArgBase → ℕ → ℕ
channel_at base i = get_or base.channels i 0

pub record CcuReduceScatterKernelArg : Type 0 where
  pub base : CcuKernelArgBase
  pub rank_size : ℕ
  pub rank_id : ℕ
  pub data_type : HcclDataType
  pub reduce_op : HcclReduceOp

pub record CcuLocalReduceKernelArg : Type 0 where
  pub base : CcuKernelArgBase
  pub group_size : ℕ
  pub group_rank_id : ℕ
  pub target_count : ℕ
  pub use_staging : Bool
  pub data_type : HcclDataType
  pub reduce_op : HcclReduceOp

pub record CcuCrossReduceKernelArg : Type 0 where
  pub base : CcuKernelArgBase
  pub send_count : ℕ
  pub send_channel_indices : List ℕ
  pub data_type : HcclDataType
  pub reduce_op : HcclReduceOp

pub record CcuPartialReduceKernelArg : Type 0 where
  pub base : CcuKernelArgBase
  pub source_count : ℕ
  pub stripe_count : ℕ
  pub local_source_index : ℕ
  pub include_local_source : Bool
  pub data_type : HcclDataType
  pub reduce_op : HcclReduceOp

pub record CcuTiledPartialReduceKernelArg : Type 0 where
  pub base : CcuKernelArgBase
  pub source_count : ℕ
  pub local_source_index : ℕ
  pub include_local_source : Bool
  pub data_type : HcclDataType
  pub reduce_op : HcclReduceOp

pub record CcuMergePartialKernelArg : Type 0 where
  pub base : CcuKernelArgBase
  pub data_type : HcclDataType
  pub reduce_op : HcclReduceOp

-- `address += offset` on the 64-bit variable of an address.
abbrev pub shift : Address → ℕ → Address
shift a offset = record a { addr = add64 a.addr offset }
