-- ===== src/Collective/Slots.antt =====
-- The scratch slots of `CcuTiledPartialReduceKernel` as `ExecOp` lays them out.
pub mod Tiles
use mathlib.Core.Path.{subst}
use native.Mathlib.Nat.{div-add-mod, mod-lt, mul-le-mul_left}
use hccl_reduce_scatter.Prelude.{
  ℕ, zero, suc, ◌+◌, ◌*◌, ◌%◌, ◌≤◌, ◌<◌, ◌≡◌, ◌≢◌, ◌⊎◌, refl, ◌∙◌, ap, Bool, true, List, [], ◌++◌,
  map, arith, inl, inr, Bool-cases, ltb, ltb→lt, ltb→le, get_or, range_from, word64, mul64,
  mul64_small, add64, add64_small,
}
use hccl_reduce_scatter.Ccu.{Inputs}
use hccl_reduce_scatter.Kernel.Args.{CcuTiledPartialReduceKernelArg}
use hccl_reduce_scatter.Kernel.Tiled.Fetch.{
  IsChanneled, get_or-within, slot_of, own_leaf, remote_source,
}
use hccl_reduce_scatter.Kernel.Tiled.Pipeline.Tiles.{IsCut}
use hccl_reduce_scatter.Kernel.Tiled.Places.{
  Apart, Apart-within, IsPlaced, scratch, own_chunk, tile_bounds, slot_output, slot_scratch,
  source_below, own_addr, count,
}
use hccl_reduce_scatter.Kernel.Tiled.Places.{tile as tile_of}
use hccl_reduce_scatter.Kernel.Tiled.Leaves.{leaf_at, bytes_of, leaf_cases}
use hccl_reduce_scatter.Ccu.Device.{inside}
use hccl_reduce_scatter.Ccu.Disjoint.{inside_bounds}
use hccl_reduce_scatter.Host.Exec.Context.{Task, rank_offset}
use hccl_reduce_scatter.Host.Exec.Partial.{partial_tile, partial_args, slot_addr, full_tile_count}

get_or-past :
    {A : Type 0} (f : ℕ → A) (rest : List A) (d : A) (i n t : ℕ)
    → get_or (map f (range_from i n) ++ rest) (n + t) d ≡ get_or rest t d
get_or-past f rest d i zero t = ap (λ s. get_or rest s d) (omega arith)
get_or-past f rest d i (suc n) t =
    let next : suc n + t ≡ suc (n + t) = omega arith in
    ap (λ s. get_or (map f (range_from i (suc n)) ++ rest) s d) next
    ∙ get_or-past f rest d (i + 1) n t

-- The index of a slot among those of both banks.
index_lem :
    (n bank source bank' source' : ℕ)
    → bank < 2
    → bank' < 2
    → source < n
    → source' < n
    → (bank ≢ bank') ⊎ (source ≢ source')
    → bank * n + source ≢ bank' * n + source'
index_lem n zero source zero source' hb hb' hs hs' (inl ne) e = ne refl
index_lem n zero source zero source' hb hb' hs hs' (inr ne) e = ne (omega arith)
index_lem n zero source (suc zero) source' hb hb' hs hs' ne e = omega arith
index_lem n (suc zero) source zero source' hb hb' hs hs' ne e = omega arith
index_lem n (suc zero) source (suc zero) source' hb hb' hs hs' (inl ne) e = ne refl
index_lem n (suc zero) source (suc zero) source' hb hb' hs hs' (inr ne) e = ne (omega arith)
index_lem n (suc (suc bank)) source bank' source' hb hb' hs hs' ne e = omega (arith, hb)
index_lem n zero source (suc (suc bank')) source' hb hb' hs hs' ne e = omega (arith, hb')
index_lem n (suc zero) source (suc (suc bank')) source' hb hb' hs hs' ne e = omega (arith, hb')

index_below : (n bank source : ℕ) → bank < 2 → source < n → bank * n + source < 2 * n
index_below n zero source hb hs = omega arith
index_below n (suc zero) source hb hs = omega arith
index_below n (suc (suc bank)) source hb hs = absurd (omega (arith, hb))

multiples-Apart : (t p q : ℕ) → p ≢ q → Apart (p * t) t (q * t) t
multiples-Apart t p q away = elim (Bool-cases (ltb p q)) [
  | inl before ↦
      let low = ltb→lt p q before in
      let steps = mul-le-mul_left {m = p + 1} {n = q} t (omega arith) in inl (omega (arith, steps))
  | inr behind ↦
      let high = ltb→le p q behind in
      let steps = mul-le-mul_left {m = q + 1} {n = p} t (omega arith) in inr (omega (arith, steps))
]

-- The cell is one of the `n` from an address on.
abbrev pub In : ℕ → ℕ → ℕ → Type 0
In b n a = (b ≤ a) × (a < b + n)

module _ (dual_die : Bool) (c : Task) (k : CcuTiledPartialReduceKernelArg) (vars : ℕ → ℕ → ℕ)
    (out_addr out_token base : ℕ) where
  abbrev pub inputs : Inputs
  inputs = record {
    task_arg = λ n. get_or (partial_args dual_die c out_addr out_token base k.source_count) n 0;
    res_by_channel = vars;
  }

  abbrev pub tile : ℕ
  tile = partial_tile dual_die c

  abbrev pub slots_bytes : ℕ
  slots_bytes = 2 * k.source_count * tile

  abbrev pub chunk_at : ℕ
  chunk_at = c.param.input_ptr + c.param.my_rank * c.recv_bytes

  -- Slots, output and own chunk in the address space, in ranges of their own.
  pub record IsLaidOut : Type 0 where
    pub channeled : IsChanneled k inputs
    pub some_channel : 1 ≤ k.base.channel_count
    pub few_sources : k.source_count ≤ 16
    pub some_tile : 1 ≤ tile
    pub offset_space : c.param.my_rank * c.recv_bytes + c.recv_bytes < word64
    pub output_space : out_addr + c.recv_bytes < word64
    pub own_space : k.include_local_source ≡ true → chunk_at + c.recv_bytes < word64
    pub slots_space : base + slots_bytes < word64
    pub off_output : Apart base slots_bytes out_addr c.recv_bytes
    pub off_own : k.include_local_source ≡ true → Apart base slots_bytes chunk_at c.recv_bytes
    pub output_off_own :
        k.include_local_source ≡ true → Apart out_addr c.recv_bytes chunk_at c.recv_bytes

  pub chunk_lem : full_tile_count dual_die c * tile + c.recv_bytes % tile ≡ c.recv_bytes
  chunk_lem = omega (arith, div-add-mod c.recv_bytes tile)

  module _ (laid : IsLaidOut) where
    pub offset_lem : rank_offset c ≡ c.param.my_rank * c.recv_bytes
    offset_lem =
        let space = laid.offset_space in mul64_small c.param.my_rank c.recv_bytes (omega arith)

    abbrev slots_list : List ℕ
    slots_list =
        map (slot_addr dual_die c base k.source_count 0) (range_from 0 k.source_count)
        ++ (map (slot_addr dual_die c base k.source_count 1) (range_from 0 k.source_count) ++ [])

    listed :
        (bank source : ℕ)
        → bank < 2
        → source < k.source_count
        → get_or slots_list (bank * k.source_count + source) 0
          ≡ slot_addr dual_die c base k.source_count bank source
    listed zero source hb hs =
        let first : 0 * k.source_count + source ≡ source = omega arith in
        ap (λ n. get_or slots_list n 0) first
        ∙ get_or-within (slot_addr dual_die c base k.source_count 0) _ 0 0 k.source_count source hs
        ∙ ap (slot_addr dual_die c base k.source_count 0) (omega arith)
    listed (suc zero) source hb hs =
        let second : 1 * k.source_count + source ≡ k.source_count + source = omega arith in
        ap (λ n. get_or slots_list n 0) second
        ∙ get_or-past (slot_addr dual_die c base k.source_count 0) _ 0 0 k.source_count source
        ∙ get_or-within (slot_addr dual_die c base k.source_count 1) [] 0 0 k.source_count source hs
        ∙ ap (slot_addr dual_die c base k.source_count 1) (omega arith)
    listed (suc (suc bank)) source hb hs = absurd (omega (arith, hb))

    slot_within :
        (bank source : ℕ)
        → bank < 2
        → source < k.source_count
        → (bank * k.source_count + source) * tile + tile ≤ slots_bytes
    slot_within bank source hb hs =
        let below = index_below k.source_count bank source hb hs in
        let steps =
          mul-le-mul_left {m = bank * k.source_count + source + 1} {n = 2 * k.source_count} tile
            (omega arith) in
        omega (arith, steps)

    slot_addr_lem :
        (bank source : ℕ)
        → bank < 2
        → source < k.source_count
        → slot_addr dual_die c base k.source_count bank source
          ≡ base + (bank * k.source_count + source) * tile
    slot_addr_lem bank source hb hs =
        let few = laid.few_sources in
        let below = index_below k.source_count bank source hb hs in
        let within = slot_within bank source hb hs in
        let space = laid.slots_space in
        ap (λ n. add64 base (mul64 (add64 n source) tile))
          (mul64_small bank k.source_count (omega arith))
        ∙ ap (λ n. add64 base (mul64 n tile))
            (add64_small (bank * k.source_count) source (omega arith))
        ∙ ap (add64 base) (mul64_small (bank * k.source_count + source) tile (omega arith))
        ∙ add64_small base ((bank * k.source_count + source) * tile) (omega arith)

    scratch_lem :
        (bank source : ℕ)
        → bank < 2
        → source < k.source_count
        → scratch k inputs bank source ≡ base + (bank * k.source_count + source) * tile
    scratch_lem bank source hb hs =
        let x = bank * k.source_count + source in
        let behind : 10 + x ≡ suc (suc (suc (suc (suc (suc (suc (suc (suc (suc x))))))))) =
          omega arith in
        ap (λ n. get_or (partial_args dual_die c out_addr out_token base k.source_count) n 0) behind
        ∙ listed bank source hb hs
        ∙ slot_addr_lem bank source hb hs

    own_at : own_chunk k inputs ≡ chunk_at
    own_at = ap (λ o. c.param.input_ptr + o) offset_lem

    laid-IsCut : IsCut k inputs (full_tile_count dual_die c)
    laid-IsCut = record {
      some = laid.some_tile;
      pairs_left = refl;
      odd = refl;
      in_space =
          let chunk = chunk_lem in let space = laid.output_space in omega (arith, chunk, space);
    }

    pub laid-IsPlaced : IsPlaced k inputs (full_tile_count dual_die c)
    laid-IsPlaced = record {
      cut = laid-IsCut;
      channeled = laid.channeled;
      some_channel = laid.some_channel;
      few_sources = laid.few_sources;
      small_tail = mod-lt c.recv_bytes laid.some_tile;
      output_space = omega (arith, chunk_lem, laid.output_space);
      own_space = λ e. omega (arith, chunk_lem, own_at, laid.own_space e);
      slots_apart = λ bank source bank' source' hb hb' hs hs' ne.
          elim (multiples-Apart tile (bank * k.source_count + source)
            (bank' * k.source_count + source')
            (index_lem k.source_count bank source bank' source' hb hb' hs hs' ne)) [
              | inl l ↦ inl (
                  omega
                    (arith, l, scratch_lem bank source hb hs, scratch_lem bank' source' hb' hs'))
              | inr l ↦ inr (
                  omega
                    (arith, l, scratch_lem bank source hb hs, scratch_lem bank' source' hb' hs'))
            ];
      slots_off_output = λ bank source hb hs.
          Apart-within base slots_bytes out_addr c.recv_bytes laid.off_output _ _ _ _
            (omega (arith, scratch_lem bank source hb hs))
            (omega (arith, scratch_lem bank source hb hs, slot_within bank source hb hs))
            (omega arith) (omega (arith, chunk_lem));
      slots_off_own = λ bank source e hb hs.
          Apart-within base slots_bytes chunk_at c.recv_bytes (laid.off_own e) _ _ _ _
            (omega (arith, scratch_lem bank source hb hs))
            (omega (arith, scratch_lem bank source hb hs, slot_within bank source hb hs))
            (omega (arith, own_at)) (omega (arith, own_at, chunk_lem));
      output_off_own = λ e.
          Apart-within out_addr c.recv_bytes chunk_at c.recv_bytes (laid.output_off_own e) _ _ _ _
            (omega arith) (omega (arith, chunk_lem)) (omega (arith, own_at))
            (omega (arith, own_at, chunk_lem));
    }

    abbrev pub placed : IsPlaced k inputs (full_tile_count dual_die c)
    placed = laid-IsPlaced

    -- Where the contributions land.
    pub slot_region :
        (t s a : ℕ)
        → t < count k inputs placed
        → s < k.base.channel_count
        → inside
            (slot_of k inputs (tile_of k inputs placed t) s)
            (tile_of k inputs placed t).bytes
            a
          ≡ true
        → In out_addr c.recv_bytes a ⊎ In base slots_bytes a
    slot_region t zero a ht hs h =
        let bounds = tile_bounds k inputs placed t ht in
        let at = slot_output k inputs placed t ht in
        let span =
          inside_bounds (slot_of k inputs (tile_of k inputs placed t) 0)
            (tile_of k inputs placed t).bytes a h in
        inl (omega (arith, at, span), omega (arith, at, span, bounds, chunk_lem))
    slot_region t (suc s) a ht hs h =
        let bounds = tile_bounds k inputs placed t ht in
        let bank = (tile_of k inputs placed t).bank in
        let source = remote_source k inputs (suc s) in
        let below = source_below k inputs placed (suc s) hs in
        let at = slot_scratch k inputs placed t (suc s) (omega arith) in
        let place = scratch_lem bank source (bounds.2) below in
        let inner = slot_within bank source (bounds.2) below in
        let span =
          inside_bounds (slot_of k inputs (tile_of k inputs placed t) (suc s))
            (tile_of k inputs placed t).bytes a h in
        inr (omega (arith, at, place, span), omega (arith, at, place, inner, span, bounds))

    pub leaf_region :
        (t p a : ℕ)
        → t < count k inputs placed
        → p < k.source_count
        → inside (leaf_at k inputs placed t p) (bytes_of k inputs placed t) a ≡ true
        → (In out_addr c.recv_bytes a ⊎ In base slots_bytes a)
          ⊎ ((k.include_local_source ≡ true) × In chunk_at c.recv_bytes a)
    leaf_region t p a ht hp h = elim (leaf_cases k inputs placed t p hp) [
      | inl (low, e) ↦ inl (
          slot_region t p a ht low
            (subst (λ d. inside d (bytes_of k inputs placed t) a ≡ true) e h))
      | inr (here, included, e) ↦
          let bounds = tile_bounds k inputs placed t ht in
          let at = own_addr k inputs placed t included ht in
          let span =
            inside_bounds (own_leaf k inputs (tile_of k inputs placed t))
              (bytes_of k inputs placed t) a
              (subst (λ d. inside d (bytes_of k inputs placed t) a ≡ true) e h) in
          inr (
            included,
            (omega (arith, at, own_at, span), omega (arith, at, own_at, span, bounds, chunk_lem)),
          )
    ]
