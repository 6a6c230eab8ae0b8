-- ===== src/Tests/Bench.antt =====
-- A device of numbers for the tests: sums, and behind channel `c` the memory of rank `c`.
use hccl_reduce_scatter.Prelude.{ℕ, ◌+◌, ◌*◌, refl, List, if◌then◌else◌, get_or}
use hccl_reduce_scatter.Ccu.{Inputs, local_copy, local_reduce, read, read_reduce, write}
use hccl_reduce_scatter.Ccu.Device.{Device, IsLawful, fills, incoming}

abbrev pub memory : ℕ → ℕ → ℕ
memory r a = 100 * r + a

abbrev still : Device ℕ
still = record { combine = λ type op a b. a + b; remote = memory; perform = λ t m. m }

abbrev pub bench : Device ℕ
bench = record still { perform = λ t m a. if fills t a then incoming still t m a else m a }

pub bench-IsLawful : IsLawful bench
bench-IsLawful (local_copy _ _ _) m a = refl
bench-IsLawful (local_reduce _ _ _ _ _) m a = refl
bench-IsLawful (read _ _ _ _) m a = refl
bench-IsLawful (read_reduce _ _ _ _ _ _) m a = refl
bench-IsLawful (write _ _ _ _) m a = refl

-- The task arguments, and one address that every peer has written, with its token.
abbrev pub inputs : List ℕ → ℕ → Inputs
inputs args peer_addr = record {
  task_arg = λ n. get_or args n 0;
  res_by_channel = λ channel id. peer_addr;
}
