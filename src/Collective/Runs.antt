-- ===== src/Collective/Runs.antt =====
-- Launches on one thread: the kernels run one after the other.
use hccl_reduce_scatter.Prelude.{ℕ, List, [], ◌∷◌}
use hccl_reduce_scatter.Ccu.{Call}
use hccl_reduce_scatter.Ccu.Device.{Device, Run, perform_all, flights}
use hccl_reduce_scatter.Ccu.Race.{Run_total}

-- `RunAll D programs m m'`: the programs, each run to its end, can take the memory `m` to `m'`.
pub data RunAll {V : Type 0} (D : Device V) : List (List Call) → (ℕ → V) → (ℕ → V) → Type 0 where
  all_done : {m : ℕ → V} → RunAll D [] m m
  next :
      {cs : List Call} {rest : List (List Call)} {m m' m'' : ℕ → V}
      → Run D cs m [] m'
      → RunAll D rest m' m''
      → RunAll D (cs ∷ rest) m m''

module _ {V : Type 0} (D : Device V) where
  abbrev pub last_memory : List (List Call) → (ℕ → V) → ℕ → V
  last_memory [] m = m
  last_memory (cs ∷ rest) m = last_memory rest (perform_all D (flights cs) m)

  -- The programs can always be run.
  pub RunAll-total :
      (programs : List (List Call)) (m : ℕ → V) → RunAll D programs m (last_memory programs m)
  RunAll-total [] m = all_done
  RunAll-total (cs ∷ rest) m =
      next (Run_total D cs m) (RunAll-total rest (perform_all D (flights cs) m))
