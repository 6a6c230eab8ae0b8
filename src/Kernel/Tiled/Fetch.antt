-- ===== src/Kernel/Tiled/Fetch.antt =====
-- The loops over the sources of `FetchTiledPartial` and `ReduceTiledPartial`, which skip the own
-- one if it is included, as lists over the channels.
use hccl_reduce_scatter.Prelude.{
  ℕ, zero, suc, ◌+◌, ◌≤◌, ◌<◌, ◌≡◌, ◌≢◌, true, false, not, ◌&&◌, refl, ◌∙◌, sym, ap, List, [], ◌∷◌,
  ◌++◌, map, arith, inl, inr, Bool-cases, ltb, get_or, range_from, if◌then◌else◌, bit16,
}
use hccl_reduce_scatter.Ccu.{Address, Flight, Inputs, start, read, bits}
use hccl_reduce_scatter.Kernel.Args.{CcuTiledPartialReduceKernelArg, shift, channel_at}
use hccl_reduce_scatter.Kernel.Common.{nowhere}
use hccl_reduce_scatter.Kernel.Tiled.{
  fetch, fetch_tiled_partial, tiled_leaves, tile_slot, tiled_input, tiled_offset, tiled_remotes,
  is_included,
}

-- A tile: where it begins in the chunk, its size, and its bank of slots.
pub record Tile : Type 0 where
  pub offset : ℕ
  pub bytes : ℕ
  pub bank : ℕ

pub get_or-within :
    {A : Type 0} (f : ℕ → A) (rest : List A) (d : A) (i n t : ℕ)
    → t < n
    → get_or (map f (range_from i n) ++ rest) t d ≡ f (i + t)
get_or-within f rest d i zero t h = elim h [ ]
get_or-within f rest d i (suc n) zero h = ap f (omega arith)
get_or-within f rest d i (suc n) (suc t) h =
    get_or-within f rest d (i + 1) n t (omega arith) ∙ ap f (omega arith)

get_or-last :
    {A : Type 0} (f : ℕ → A) (x d : A) (i n : ℕ)
    → get_or (map f (range_from i n) ++ (x ∷ [])) n d ≡ x
get_or-last f x d i zero = refl
get_or-last f x d i (suc n) = get_or-last f x d (i + 1) n

module _ (k : CcuTiledPartialReduceKernelArg) (i : Inputs) where
  -- The source that a channel leads to.
  abbrev pub remote_source : ℕ → ℕ
  remote_source channel =
      if k.include_local_source && not (ltb channel k.local_source_index)
      then channel + 1
      else channel

  abbrev pub pull : Tile → ℕ → ℕ → Flight
  pull j source c = record {
    transfer =
        read (channel_at k.base c) (tile_slot k i j.offset j.bank source)
          (shift (shift (get_or (tiled_remotes k i) source nowhere) (tiled_offset k i)) j.offset)
          j.bytes;
    event = 0;
    mask = bits (bit16 c);
  }

  abbrev pub pull_of : Tile → ℕ → Flight
  pull_of j c = pull j (remote_source c) c

  abbrev pub slot_of : Tile → ℕ → Address
  slot_of j c = tile_slot k i j.offset j.bank (remote_source c)

  abbrev pub own_leaf : Tile → Address
  own_leaf j = shift (shift (tiled_input k i) (tiled_offset k i)) j.offset

  abbrev own_leaves : Tile → List Address
  own_leaves j = if k.include_local_source then own_leaf j ∷ [] else []

  -- The sources from `source` on have the channels from `channel` on.
  abbrev Aligned : ℕ → ℕ → ℕ → Type 0
  Aligned n source channel =
      (t : ℕ)
      → t < n
      → (is_included k i (source + t) ≡ false) × (remote_source (channel + t) ≡ source + t)

  next-Aligned :
      (n source channel : ℕ)
      → Aligned (suc n) source channel
      → (is_included k i source ≡ false)
        × (remote_source channel ≡ source)
        × Aligned n (source + 1) (channel + 1)
  next-Aligned n source channel aligned =
      let zero_lem : source ≡ source + 0 = omega arith in
      let zero_lem' : channel ≡ channel + 0 = omega arith in
      (
        ap (is_included k i) zero_lem ∙ (aligned 0 (omega arith)).0,
        ap remote_source zero_lem' ∙ (aligned 0 (omega arith)).1 ∙ sym zero_lem,
        λ t below.
            let step : source + 1 + t ≡ source + suc t = omega arith in
            let step' : channel + 1 + t ≡ channel + suc t = omega arith in
            (
              ap (is_included k i) step ∙ (aligned (suc t) (omega arith)).0,
              ap remote_source step' ∙ (aligned (suc t) (omega arith)).1 ∙ sym step,
            ),
      )

  fetch-Aligned :
      (j : Tile) (n source channel : ℕ)
      → Aligned n source channel
      → fetch_tiled_partial k i j.offset j.bytes j.bank n source channel
        ≡ map (λ c. start (pull_of j c)) (range_from channel n)
  unfolding fetch_tiled_partial
  fetch-Aligned j zero source channel aligned = refl
  fetch-Aligned j (suc n) source channel aligned =
      let (away, here, rest) = next-Aligned n source channel aligned in
      rw away (
        ap (λ l. start (pull j source channel) ∷ l)
          (fetch-Aligned j n (source + 1) (channel + 1) rest)
        ∙ ap
            (λ s.
              start (pull j s channel)
              ∷ map (λ c. start (pull_of j c)) (range_from (channel + 1) n))
            (sym here))

  leaves-Aligned :
      (j : Tile) (n source channel : ℕ)
      → Aligned n source channel
      → tiled_leaves k i j.offset j.bank n source
        ≡ map (slot_of j) (range_from channel n) ++ own_leaves j
  unfolding tiled_leaves
  leaves-Aligned j zero source channel aligned = refl
  leaves-Aligned j (suc n) source channel aligned =
      let (away, here, rest) = next-Aligned n source channel aligned in
      rw away (
        ap (λ l. tile_slot k i j.offset j.bank source ∷ l)
          (leaves-Aligned j n (source + 1) (channel + 1) rest)
        ∙ ap
            (λ s.
              tile_slot k i j.offset j.bank s
              ∷ (map (slot_of j) (range_from (channel + 1) n) ++ own_leaves j))
            (sym here))

  module _ (included : k.include_local_source ≡ true) where
    behind_own : (n c : ℕ) → k.local_source_index ≤ c → Aligned n (c + 1) c
    behind_own n c past t below = ground arith

    fetch_around :
        (j : Tile) (n c : ℕ)
        → c ≤ k.local_source_index
        → k.local_source_index ≤ c + n
        → fetch_tiled_partial k i j.offset j.bytes j.bank (suc n) c c
          ≡ map (λ c. start (pull_of j c)) (range_from c n)
    unfolding fetch_tiled_partial
    fetch_around j zero c lo hi = let own : is_included k i c ≡ true = ground arith in rw own
    fetch_around j (suc n) c lo hi = elim (Bool-cases (is_included k i c)) [
      | inl own ↦
          let here : c ≡ k.local_source_index = ground arith in
          rw own (fetch-Aligned j (suc n) (c + 1) c (behind_own (suc n) c (omega arith)))
      | inr other ↦
          let away : c ≢ k.local_source_index = ground arith in
          let same : remote_source c ≡ c = ground arith in
          rw other (
            ap (λ l. start (pull j c c) ∷ l) (fetch_around j n (c + 1) (omega arith) (omega arith))
            ∙ ap (λ s. start (pull j s c) ∷ map (λ c. start (pull_of j c)) (range_from (c + 1) n))
                (sym same))
    ]

    leaves_around :
        (j : Tile) (n c : ℕ)
        → c ≤ k.local_source_index
        → k.local_source_index ≤ c + n
        → tiled_leaves k i j.offset j.bank (suc n) c
          ≡ map (slot_of j) (range_from c n) ++ own_leaves j
    unfolding tiled_leaves
    leaves_around j zero c lo hi = let own : is_included k i c ≡ true = ground arith in rw own
    leaves_around j (suc n) c lo hi = elim (Bool-cases (is_included k i c)) [
      | inl own ↦
          let here : c ≡ k.local_source_index = ground arith in
          rw own (leaves-Aligned j (suc n) (c + 1) c (behind_own (suc n) c (omega arith)))
      | inr other ↦
          let away : c ≢ k.local_source_index = ground arith in
          let same : remote_source c ≡ c = ground arith in
          rw other (
            ap (λ l. tile_slot k i j.offset j.bank c ∷ l)
              (leaves_around j n (c + 1) (omega arith) (omega arith))
            ∙ ap
                (λ s.
                  tile_slot k i j.offset j.bank s
                  ∷ (map (slot_of j) (range_from (c + 1) n) ++ own_leaves j))
                (sym same))
    ]

  -- One channel for each source but the own one, which is a source if it is included.
  pub record IsChanneled : Type 0 where
    pub own_source : k.include_local_source ≡ true → k.local_source_index < k.source_count
    pub one_channel_each :
        k.source_count ≡ k.base.channel_count + (if k.include_local_source then 1 else 0)

  module _ (channeled : IsChanneled) where
    all-Aligned : k.include_local_source ≡ false → (n : ℕ) → Aligned n 0 0
    all-Aligned whole n t below = ground arith

    pub fetch-map :
        (j : Tile)
        → fetch k i j.offset j.bytes j.bank
          ≡ map (λ c. start (pull_of j c)) (range_from 0 k.base.channel_count)
    fetch-map j = elim (Bool-cases k.include_local_source) [
      | inl included ↦
          let own = channeled.own_source included in
          let each : k.source_count ≡ suc k.base.channel_count =
            channeled.one_channel_each ∙ rw included (omega arith) in
          ap (λ n. fetch_tiled_partial k i j.offset j.bytes j.bank n 0 0) each
          ∙ fetch_around included j k.base.channel_count 0 (omega arith) (omega arith)
      | inr whole ↦
          let each : k.source_count ≡ k.base.channel_count =
            channeled.one_channel_each ∙ rw whole (omega arith) in
          ap (λ n. fetch_tiled_partial k i j.offset j.bytes j.bank n 0 0) each
          ∙ fetch-Aligned j k.base.channel_count 0 0 (all-Aligned whole k.base.channel_count)
    ]

    -- The leaves of a tile's tree.
    abbrev pub leaves : Tile → List Address
    leaves j = tiled_leaves k i j.offset j.bank k.source_count 0

    leaves-map :
        (j : Tile) → leaves j ≡ map (slot_of j) (range_from 0 k.base.channel_count) ++ own_leaves j
    leaves-map j = elim (Bool-cases k.include_local_source) [
      | inl included ↦
          let own = channeled.own_source included in
          let each : k.source_count ≡ suc k.base.channel_count =
            channeled.one_channel_each ∙ rw included (omega arith) in
          ap (λ n. tiled_leaves k i j.offset j.bank n 0) each
          ∙ leaves_around included j k.base.channel_count 0 (omega arith) (omega arith)
      | inr whole ↦
          let each : k.source_count ≡ k.base.channel_count =
            channeled.one_channel_each ∙ rw whole (omega arith) in
          ap (λ n. tiled_leaves k i j.offset j.bank n 0) each
          ∙ leaves-Aligned j k.base.channel_count 0 0 (all-Aligned whole k.base.channel_count)
    ]

    pub leaf_slot :
        (j : Tile) (t : ℕ) → t < k.base.channel_count → get_or (leaves j) t nowhere ≡ slot_of j t
    leaf_slot j t h =
        ap (λ l. get_or l t nowhere) (leaves-map j)
        ∙ get_or-within (slot_of j) (own_leaves j) nowhere 0 k.base.channel_count t h
        ∙ ap (slot_of j) (omega arith)

    pub leaf_own :
        (j : Tile)
        → k.include_local_source ≡ true
        → get_or (leaves j) k.base.channel_count nowhere ≡ own_leaf j
    leaf_own j included =
        ap (λ l. get_or l k.base.channel_count nowhere) (leaves-map j)
        ∙ ap
            (λ b.
              get_or
                (map (slot_of j) (range_from 0 k.base.channel_count)
                  ++ (if b then own_leaf j ∷ [] else []))
                k.base.channel_count nowhere)
            included
        ∙ get_or-last (slot_of j) (own_leaf j) nowhere 0 k.base.channel_count
