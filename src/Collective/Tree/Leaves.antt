-- ===== src/Collective/Tree/Leaves.antt =====
-- The leaves of the tree in the memory of a rank: the output, the slots and the own chunk.
use hccl_reduce_scatter.Prelude.{
  ℕ, zero, suc, ◌+◌, ◌-◌, ◌*◌, ◌≤◌, ◌<◌, ◌≡◌, ◌≢◌, ◌⊎◌, refl, sym, ◌∙◌, ap, List, map, arith, inl,
  inr, Bool-cases, ltb, ltb→lt, ltb→le, ◌==◌, get_or, range_from, word64, mul64_small, add64,
  add64_small, length,
}
use hccl_reduce_scatter.Ccu.{Inputs}
use hccl_reduce_scatter.Ccu.Device.{Device}
use hccl_reduce_scatter.Kernel.Args.{CcuPartialReduceKernelArg}
use hccl_reduce_scatter.Kernel.Tree.{first_remote_source}
use hccl_reduce_scatter.Kernel.Tree.Fetch.{
  leaves_slot, leaves_own, remote_source, slot_of, own_leaf,
}
use hccl_reduce_scatter.Kernel.Tree.Races.{IsFit, IsWired, leaf_at}
use hccl_reduce_scatter.Kernel.Tree.Rounds.{AreApart}
use hccl_reduce_scatter.Host.Register.{small_tree_kernel_arg}
use hccl_reduce_scatter.Host.Exec.Context.{Task, rank_offset, ccl_addr}
use hccl_reduce_scatter.Host.Exec.Small.{tree_slot_addr, small_tree_args}
use hccl_reduce_scatter.Collective.Joined.{IsJoined}

-- The slots of the CCL buffer: in the address space, and apart from the output and from the chunk
-- that is due to this rank.
pub record HasScratch (c : Task) : Type 0 where
  pub scratch_room : ccl_addr c + c.param.rank_size * c.recv_bytes < word64
  pub off_output :
      (c.param.output_ptr + c.recv_bytes ≤ ccl_addr c)
      ⊎ (ccl_addr c + c.param.rank_size * c.recv_bytes ≤ c.param.output_ptr)
  pub off_chunk :
      (c.param.input_ptr + c.param.my_rank * c.recv_bytes + c.recv_bytes ≤ ccl_addr c)
      ⊎ (ccl_addr c + c.param.rank_size * c.recv_bytes
          ≤ c.param.input_ptr + c.param.my_rank * c.recv_bytes)

get_or-map_range : (f : ℕ → ℕ) (i n t : ℕ) → t < n → get_or (map f (range_from i n)) t 0 ≡ f (i + t)
get_or-map_range f i zero t h = elim h [ ]
get_or-map_range f i (suc n) zero h = ap f (omega arith)
get_or-map_range f i (suc n) (suc t) h =
    get_or-map_range f (i + 1) n t (omega arith) ∙ ap f (omega arith)

slots_below : (b r s : ℕ) → r < s → r * b + b ≤ s * b
slots_below b r s h = grind arith

module _ {V : Type 0} (D : Device V) (c : Task) (channels : List ℕ) (vars : ℕ → ℕ → ℕ) where
  abbrev pub arg : CcuPartialReduceKernelArg
  arg = small_tree_kernel_arg c.param channels

  abbrev pub inputs : Inputs
  inputs = record { task_arg = λ n. get_or (small_tree_args c) n 0; res_by_channel = vars }

  module _ {memory : ℕ → ℕ → V} {input_addr : ℕ → ℕ}
      (joined : IsJoined D c channels vars memory input_addr) (scratch : HasScratch c)
      (count : length channels ≡ c.param.rank_size - 1) where
    pub joined-IsWired : IsWired D arg inputs memory input_addr
    joined-IsWired = record {
      own_addr = joined.own_input;
      peer_memory = joined.peer_memory;
      peer_addr = joined.peer_addr;
    }

    pub chunk_offset : rank_offset c ≡ c.param.my_rank * c.recv_bytes
    chunk_offset =
        mul64_small c.param.my_rank c.recv_bytes
          (omega (arith, joined.input_room c.param.my_rank joined.own_rank))

    own_addr_lem : (own_leaf arg inputs).addr ≡ c.param.input_ptr + c.param.my_rank * c.recv_bytes
    own_addr_lem =
        ap (add64 c.param.input_ptr) chunk_offset
        ∙ add64_small c.param.input_ptr (c.param.my_rank * c.recv_bytes)
            (omega (arith, joined.input_room c.param.my_rank joined.own_rank, joined.own_input))

    abbrev ranks : ℕ
    ranks = c.param.rank_size

    abbrev leaf_addr : ℕ → ℕ
    leaf_addr t = (leaf_at arg inputs t).addr

    each_lem : ranks ≡ suc (ranks - 1)
    each_lem = let two = joined.two_ranks in omega arith

    stage_lem : (r : ℕ) → r < ranks → inputs.task_arg (7 + r) ≡ ccl_addr c + r * c.recv_bytes
    stage_lem r h =
        let behind : 7 + r ≡ suc (suc (suc (suc (suc (suc (suc r)))))) = omega arith in
        let room : ccl_addr c + r * c.recv_bytes < word64 =
          omega (arith, scratch.scratch_room, slots_below c.recv_bytes r ranks h) in
        ap (λ n. get_or (small_tree_args c) n 0) behind
        ∙ get_or-map_range (tree_slot_addr c) 0 ranks r h
        ∙ ap (tree_slot_addr c) (omega arith)
        ∙ ap (add64 (ccl_addr c)) (mul64_small r c.recv_bytes (omega arith))
        ∙ add64_small (ccl_addr c) (r * c.recv_bytes) room

    -- Where the leaves are: the first in the output, the others of peers in the slots of their
    -- ranks, the last in the own input.
    abbrev Placed : ℕ → ℕ → Type 0
    Placed t a =
        ((a ≡ c.param.output_ptr) × (t ≡ 0))
        ⊎ (((a ≡ ccl_addr c + remote_source arg t * c.recv_bytes) × (remote_source arg t < ranks))
            ⊎ ((a ≡ c.param.input_ptr + c.param.my_rank * c.recv_bytes) × (t ≡ ranks - 1)))

    leaf_cases : (t : ℕ) → t < ranks → Placed t (leaf_addr t)
    leaf_cases t h = elim (Bool-cases (ltb t (ranks - 1))) [
      | inl remote ↦
          let low = ltb→lt t (ranks - 1) remote in
          let at : leaf_at arg inputs t ≡ slot_of arg inputs t =
            leaves_slot arg inputs ranks (ranks - 1) t each_lem joined.own_rank low in
          elim (Bool-cases (remote_source arg t == first_remote_source arg inputs)) [
            | inl first ↦
                let start : t ≡ 0 = ground arith in inl (ap (λ a. a.addr) at ∙ rw first refl, start)
            | inr other ↦
                let below : remote_source arg t < ranks = ground arith in
                inr (
                  inl
                    (ap (λ a. a.addr) at ∙ rw other (stage_lem (remote_source arg t) below), below))
          ]
      | inr own ↦
          let high = ltb→le t (ranks - 1) own in
          let here : t ≡ ranks - 1 = omega arith in
          inr (
            inr (
              ap leaf_addr here
                  ∙ ap (λ a. a.addr)
                      (leaves_own arg inputs ranks (ranks - 1) each_lem joined.own_rank)
                  ∙ own_addr_lem,
              here,
            ))
    ]

    remote_source_injective : (s t : ℕ) → remote_source arg s ≡ remote_source arg t → s ≡ t
    remote_source_injective s t e = ground arith

    slots_of_ranks : (r q : ℕ) → r ≢ q → AreApart c.recv_bytes (r * c.recv_bytes) (q * c.recv_bytes)
    slots_of_ranks r q away = elim (Bool-cases (ltb r q)) [
      | inl before ↦ inl (slots_below c.recv_bytes r q (ltb→lt r q before))
      | inr after ↦ inr (slots_below c.recv_bytes q r (omega (arith, ltb→le r q after)))
    ]

    Placed-AreApart : (s t a b : ℕ) → s ≢ t → Placed s a → Placed t b → AreApart c.recv_bytes a b
    Placed-AreApart s t a b away (inl (at, first)) (inl (at', first')) =
        absurd (away (first ∙ sym first'))
    Placed-AreApart s t a b away (inl (at, first)) (inr (inl (at', below))) =
        let top = slots_below c.recv_bytes (remote_source arg t) ranks below in
        elim scratch.off_output [ inl l ↦ inl (omega arith) | inr l ↦ inr (omega arith) ]
    Placed-AreApart s t a b away (inl (at, first)) (inr (inr (at', end))) = elim joined.apart [
      | inl l ↦ inl (omega arith)
      | inr l ↦ inr (omega arith)
    ]
    Placed-AreApart s t a b away (inr (inl (at, below))) (inl (at', first')) =
        let top = slots_below c.recv_bytes (remote_source arg s) ranks below in
        elim scratch.off_output [ inl l ↦ inr (omega arith) | inr l ↦ inl (omega arith) ]
    Placed-AreApart s t a b away (inr (inl (at, below))) (inr (inl (at', below'))) =
        elim (slots_of_ranks (remote_source arg s) (remote_source arg t)
          (λ e. away (remote_source_injective s t e))) [
            | inl l ↦ inl (omega arith)
            | inr l ↦ inr (omega arith)
          ]
    Placed-AreApart s t a b away (inr (inl (at, below))) (inr (inr (at', end))) =
        let top = slots_below c.recv_bytes (remote_source arg s) ranks below in
        elim scratch.off_chunk [ inl l ↦ inr (omega arith) | inr l ↦ inl (omega arith) ]
    Placed-AreApart s t a b away (inr (inr (at, end))) (inl (at', first')) = elim joined.apart [
      | inl l ↦ inr (omega arith)
      | inr l ↦ inl (omega arith)
    ]
    Placed-AreApart s t a b away (inr (inr (at, end))) (inr (inl (at', below'))) =
        let top = slots_below c.recv_bytes (remote_source arg t) ranks below' in
        elim scratch.off_chunk [ inl l ↦ inl (omega arith) | inr l ↦ inr (omega arith) ]
    Placed-AreApart s t a b away (inr (inr (at, end))) (inr (inr (at', end'))) =
        absurd (away (end ∙ sym end'))

    pub joined-IsFit : IsFit arg inputs input_addr
    joined-IsFit = record {
      two_sources = joined.two_ranks;
      few_sources = joined.few_ranks;
      own_source = joined.own_rank;
      one_channel_each = each_lem ∙ ap suc (sym count);
      in_space = λ r h. omega (arith, joined.input_room r h, chunk_offset);
      leaves_apart = λ s t hs ht away.
          Placed-AreApart s t (leaf_addr s) (leaf_addr t) away (leaf_cases s hs) (leaf_cases t ht);
    }
