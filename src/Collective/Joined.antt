-- ===== src/Collective/Joined.antt =====
-- What a rank relies on when the collective runs on all ranks.
use hccl_reduce_scatter.Prelude.{ℕ, ◌+◌, ◌*◌, ◌≤◌, ◌<◌, ◌≡◌, ◌≢◌, ◌⊎◌, List, get_or, word64}
use hccl_reduce_scatter.Ccu.Device.{Device}
use hccl_reduce_scatter.Kernel.Common.{channel_of}
use hccl_reduce_scatter.Host.Exec.Context.{Task}

module _ {V : Type 0} (D : Device V) (c : Task) (channels : List ℕ) (vars : ℕ → ℕ → ℕ) where
  -- A rank of 2 to 16, as it sees the memories and inputs of all: the channels stand in the
  -- order of the peers, and every peer has written the address of its input. The inputs and the
  -- output lie in the address space, and the rank's own chunk apart from the output.
  pub record IsJoined (memory : ℕ → ℕ → V) (input_addr : ℕ → ℕ) : Type 0 where
    pub two_ranks : 2 ≤ c.param.rank_size
    pub few_ranks : c.param.rank_size ≤ 16
    pub own_rank : c.param.my_rank < c.param.rank_size
    pub own_input : c.param.input_ptr ≡ input_addr c.param.my_rank
    pub peer_memory :
        (r a : ℕ)
        → r < c.param.rank_size
        → r ≢ c.param.my_rank
        → D.remote (get_or channels (channel_of c.param.my_rank r) 0) a ≡ memory r a
    pub peer_addr :
        (r : ℕ)
        → r < c.param.rank_size
        → r ≢ c.param.my_rank
        → vars (get_or channels (channel_of c.param.my_rank r) 0) 1 ≡ input_addr r
    pub output_room : c.param.output_ptr + c.recv_bytes < word64
    pub input_room :
        (r : ℕ)
        → r < c.param.rank_size
        → input_addr r + c.param.my_rank * c.recv_bytes + c.recv_bytes < word64
    pub apart :
        (c.param.output_ptr + c.recv_bytes ≤ c.param.input_ptr + c.param.my_rank * c.recv_bytes)
        ⊎ (c.param.input_ptr + c.param.my_rank * c.recv_bytes + c.recv_bytes ≤ c.param.output_ptr)
