-- ===== src/Kernel/Tiled/Places.antt =====
-- Where the tiles of `CcuTiledPartialReduceKernel` and their contributions lie in memory.
use native.Mathlib.Nat.{mul-le-mul_left, div-add-mod, mod-lt, div-lt_iff_lt-mul}
use hccl_reduce_scatter.Prelude.{
  ℕ, zero, suc, ◌+◌, ◌-◌, ◌*◌, ◌/◌, ◌%◌, ◌≤◌, ◌<◌, ◌≡◌, ◌≢◌, ◌⊎◌, refl, ◌∙◌, ap, Bool, true, false,
  arith, add64, inl, inr, Bool-cases, ltb, ltb→lt, ltb→le, ◌==◌, ==_iff, if◌then◌else◌, add64_small,
  word64,
}
use hccl_reduce_scatter.Ccu.{Address, Inputs}
use hccl_reduce_scatter.Kernel.Args.{CcuTiledPartialReduceKernelArg, shift}
use hccl_reduce_scatter.Kernel.Tiled.{
  tile_capacity, tail_bytes, tiled_output, tiled_input, tiled_offset, first_source,
  tiled_scratch_token,
}
use hccl_reduce_scatter.Kernel.Tiled.Fetch.{Tile, IsChanneled, remote_source, slot_of, own_leaf}
use hccl_reduce_scatter.Kernel.Tiled.Pipeline.Tiles.{IsCut, tile_at, tile_count}

-- The `n` cells at one address and the `m` cells at another have none in common.
abbrev pub Apart : ℕ → ℕ → ℕ → ℕ → Type 0
Apart a n b m = (a + n ≤ b) ⊎ (b + m ≤ a)

pub Apart-sym : (a n b m : ℕ) → Apart a n b m → Apart b m a n
Apart-sym a n b m h = ground arith

-- Ranges within ranges that are apart.
pub Apart-within :
    (a n b m : ℕ)
    → Apart a n b m
    → (a' n' b' m' : ℕ) → a ≤ a'
    → a' + n' ≤ a + n
    → b ≤ b'
    → b' + m' ≤ b + m
    → Apart a' n' b' m'
Apart-within a n b m h a' n' b' m' lo hi lo' hi' = ground arith

module _ (k : CcuTiledPartialReduceKernelArg) (i : Inputs) where
  -- The scratch slot of a source in a bank.
  abbrev pub scratch : ℕ → ℕ → ℕ
  scratch bank source = i.task_arg (10 + (bank * k.source_count + source))

  abbrev pub chunk_bytes : ℕ → ℕ
  chunk_bytes full = full * tile_capacity k i + tail_bytes k i

  abbrev pub own_chunk : ℕ
  own_chunk = (tiled_input k i).addr + tiled_offset k i

  -- A chunk that is cut into tiles, in the address space, with slots that are apart from each
  -- other, from the output and from the own contribution.
  pub record IsPlaced (full : ℕ) : Type 0 where
    pub cut : IsCut k i full
    pub channeled : IsChanneled k i
    pub some_channel : 1 ≤ k.base.channel_count
    pub few_sources : k.source_count ≤ 16
    pub small_tail : tail_bytes k i < tile_capacity k i
    pub output_space : (tiled_output k i).addr + chunk_bytes full < word64
    pub own_space : k.include_local_source ≡ true → own_chunk + chunk_bytes full < word64
    pub slots_apart :
        (bank source bank' source' : ℕ)
        → bank < 2
        → bank' < 2
        → source < k.source_count
        → source' < k.source_count
        → (bank ≢ bank') ⊎ (source ≢ source')
        → Apart
            (scratch bank source)
            (tile_capacity k i)
            (scratch bank' source')
            (tile_capacity k i)
    pub slots_off_output :
        (bank source : ℕ)
        → bank < 2
        → source < k.source_count
        → Apart (scratch bank source) (tile_capacity k i) (tiled_output k i).addr (chunk_bytes full)
    pub slots_off_own :
        (bank source : ℕ)
        → k.include_local_source ≡ true
        → bank < 2
        → source < k.source_count
        → Apart (scratch bank source) (tile_capacity k i) own_chunk (chunk_bytes full)
    pub output_off_own :
        k.include_local_source ≡ true
        → Apart (tiled_output k i).addr (chunk_bytes full) own_chunk (chunk_bytes full)

  module _ {full : ℕ} (placed : IsPlaced full) where
    abbrev pub tile : ℕ → Tile
    tile t = tile_at k i full t

    abbrev pub count : ℕ
    count = tile_count k i full

    -- A tile lies in the chunk, is no larger than a slot, and has one of the two banks.
    pub tile_bounds :
        (t : ℕ)
        → t < count
        → ((tile t).offset + (tile t).bytes ≤ chunk_bytes full)
          × ((tile t).bytes ≤ tile_capacity k i)
          × ((tile t).bank < 2)
    tile_bounds t h = elim (Bool-cases (t == full)) [
      | inl last ↦ let small = placed.small_tail in rw last (omega arith, omega arith, omega arith)
      | inr away ↦
          let low : t < full = ground arith in
          let steps = mul-le-mul_left {m = t + 1} {n = full} (tile_capacity k i) (omega arith) in
          rw away (omega (arith, steps), omega arith, omega arith)
    ]

    pub tile_order :
        (s t : ℕ) → s < t → t < count → (tile s).offset + (tile s).bytes ≤ (tile t).offset
    tile_order s t before h =
        let steps = mul-le-mul_left {m = s + 1} {n = t} (tile_capacity k i) (omega arith) in
        let first : (s == full) ≡ false = ground arith in
        rw first (elim (Bool-cases (t == full)) [
          | inl last ↦
              let e = (==_iff t full).0 last in
              rw last (omega (arith, ap (λ n. n * tile_capacity k i) e, steps))
          | inr away ↦ rw away (omega (arith, steps))
        ])

    -- The tile of a cell of the chunk.
    pub cell_tile :
        (j : ℕ)
        → j < chunk_bytes full
        → (s : ℕ) × (x : ℕ) × (s < count) × (x < (tile s).bytes) × ((tile s).offset + x ≡ j)
    cell_tile j h =
        let cap = tile_capacity k i in
        let some = placed.cut.some in
        elim (Bool-cases (ltb j (full * cap))) [
          | inl inner ↦
              let split = div-add-mod j cap in
              let small = mod-lt j some in
              let below : j / cap < full =
                (div-lt_iff_lt-mul some).1 (ltb→lt j (full * cap) inner) in
              let away : (j / cap == full) ≡ false = ground arith in
              (j / cap, j % cap, ground arith, rw away small, rw away (omega (arith, split)))
          | inr outer ↦
              let last : (full == full) ≡ true = ground arith in
              let past = ltb→le j (full * cap) outer in
              (full, j - full * cap, ground arith, rw last (omega arith), rw last (omega arith))
        ]

    abbrev pub slot_addr : ℕ → ℕ → ℕ
    slot_addr t c = (slot_of k i (tile t) c).addr

    abbrev staged : ℕ → ℕ → Bool → Address
    staged t c b = if b then shift (tiled_output k i) (tile t).offset else record {
      addr = scratch (tile t).bank (remote_source k i c);
      token = tiled_scratch_token k i;
    }

    pub slot_output :
        (t : ℕ) → t < count → slot_addr t 0 ≡ (tiled_output k i).addr + (tile t).offset
    slot_output t h =
        let first : (remote_source k i 0 == first_source k i) ≡ true = ground arith in
        let bounds = tile_bounds t h in
        let space = placed.output_space in
        ap (λ b. (staged t 0 b).addr) first
        ∙ add64_small (tiled_output k i).addr (tile t).offset (omega arith)

    pub slot_scratch :
        (t c : ℕ) → 1 ≤ c → slot_addr t c ≡ scratch (tile t).bank (remote_source k i c)
    slot_scratch t c some =
        let later : (remote_source k i c == first_source k i) ≡ false = ground arith in
        ap (λ b. (staged t c b).addr) later

    pub source_below : (c : ℕ) → c < k.base.channel_count → remote_source k i c < k.source_count
    source_below c h = let each = placed.channeled.one_channel_each in ground arith

    pub own_addr :
        (t : ℕ)
        → k.include_local_source ≡ true
        → t < count
        → (own_leaf k i (tile t)).addr ≡ own_chunk + (tile t).offset
    own_addr t included h =
        let bounds = tile_bounds t h in
        let space = placed.own_space included in
        ap (λ a. add64 a (tile t).offset)
          (add64_small (tiled_input k i).addr (tiled_offset k i) (omega arith))
        ∙ add64_small own_chunk (tile t).offset (omega arith)

    -- Where two contributions of the remote sources land.
    pub lands-Apart :
        (s t c d : ℕ)
        → s < count
        → t < count
        → c < k.base.channel_count
        → d < k.base.channel_count
        → (c ≢ d) ⊎ ((s ≢ t) × ((c ≡ 0) ⊎ ((tile s).bank ≢ (tile t).bank)))
        → Apart (slot_addr s c) (tile s).bytes (slot_addr t d) (tile t).bytes
    lands-Apart s t zero zero hs ht hc hd ne =
        let away : s ≢ t = elim ne [ inl bad ↦ absurd (bad refl) | inr good ↦ good.0 ] in
        rw (slot_output s hs, slot_output t ht)
          (elim (Bool-cases (ltb s t)) [
            | inl before ↦
                let low = ltb→lt s t before in
                let order = tile_order s t low ht in inl (omega arith)
            | inr behind ↦
                let high = ltb→le s t behind in
                let order = tile_order t s (omega arith) hs in inr (omega arith)
          ])
    lands-Apart s t zero (suc d) hs ht hc hd ne =
        let b = tile_bounds s hs in
        let b' = tile_bounds t ht in
        rw (slot_output s hs, slot_scratch t (suc d) (omega arith))
          (Apart-sym _ _ _ _ (
            Apart-within _ _ _ _
              (placed.slots_off_output (tile t).bank (remote_source k i (suc d)) b'.2
                (source_below (suc d) hd))
              _ _ _ _ (omega arith) (omega arith) (omega arith) (omega arith)))
    lands-Apart s t (suc c) zero hs ht hc hd ne =
        let b = tile_bounds s hs in
        let b' = tile_bounds t ht in
        rw (slot_scratch s (suc c) (omega arith), slot_output t ht)
          (Apart-within _ _ _ _
            (placed.slots_off_output (tile s).bank (remote_source k i (suc c)) b.2
              (source_below (suc c) hc))
            _ _ _ _ (omega arith) (omega arith) (omega arith) (omega arith))
    lands-Apart s t (suc c) (suc d) hs ht hc hd ne =
        let b = tile_bounds s hs in
        let b' = tile_bounds t ht in
        rw (slot_scratch s (suc c) (omega arith), slot_scratch t (suc d) (omega arith))
          (Apart-within _ _ _ _
            (placed.slots_apart (tile s).bank (remote_source k i (suc c)) (tile t).bank
              (remote_source k i (suc d)) b.2 b'.2 (source_below (suc c) hc)
              (source_below (suc d) hd)
              (elim ne [
                | inl away ↦ inr (ground arith)
                | inr both ↦ elim (both.1) [
                  | inl bad ↦ absurd (omega arith)
                  | inr banks ↦ inl banks
                ]
              ]))
            _ _ _ _ (omega arith) (omega arith) (omega arith) (omega arith))

    pub lands_off_own :
        (s t c : ℕ)
        → k.include_local_source ≡ true
        → s < count
        → t < count
        → c < k.base.channel_count
        → Apart (slot_addr s c) (tile s).bytes (own_leaf k i (tile t)).addr (tile t).bytes
    lands_off_own s t zero included hs ht hc =
        let b = tile_bounds s hs in
        let b' = tile_bounds t ht in
        rw (slot_output s hs, own_addr t included ht)
          (Apart-within _ _ _ _ (placed.output_off_own included) _ _ _ _ (omega arith) (omega arith)
            (omega arith) (omega arith))
    lands_off_own s t (suc c) included hs ht hc =
        let b = tile_bounds s hs in
        let b' = tile_bounds t ht in
        rw (slot_scratch s (suc c) (omega arith), own_addr t included ht)
          (Apart-within _ _ _ _
            (placed.slots_off_own (tile s).bank (remote_source k i (suc c)) included b.2
              (source_below (suc c) hc))
            _ _ _ _ (omega arith) (omega arith) (omega arith) (omega arith))
