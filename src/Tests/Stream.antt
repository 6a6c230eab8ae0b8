-- ===== src/Tests/Stream.antt =====
-- The byte stream on a concrete context.
use hccl_reduce_scatter.Prelude.{◌≡◌, some, [], ◌∷◌, arith}
use hccl_reduce_scatter.Host.Types.{AlgResourceCtx, striped_single_die}
use hccl_reduce_scatter.Stream.Context.{
  serialize, deserialize, IsRepresentable, deserialize-serialize,
}

abbrev small_context : AlgResourceCtx
small_context = record {
  algorithm = striped_single_die;
  ccu_thread = 1;
  local_buffer = record { addr = 4096; size = 1024 };
  threads = 1 ∷ [];
  ccu_kernels = 300 ∷ [];
  local_ranks = [];
  target_ranks = [];
  cross_peers = [];
  cross_send_target_indices = [];
}

small-IsRepresentable : IsRepresentable small_context
small-IsRepresentable = record {
  thread_fits = omega arith;
  addr_fits = omega arith;
  size_fits = omega arith;
  threads_fit = ((omega arith, tt), omega arith);
  kernels_fit = ((omega arith, tt), omega arith);
  local_fit = (tt, omega arith);
  target_fit = (tt, omega arith);
  peers_fit = (tt, omega arith);
  indices_fit = (tt, omega arith);
}

deserialize-serialize_example : deserialize (serialize small_context) ≡ some small_context
deserialize-serialize_example = deserialize-serialize small_context small-IsRepresentable
