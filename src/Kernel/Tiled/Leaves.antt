-- ===== src/Kernel/Tiled/Leaves.antt =====
-- The leaves of each tile's tree, and what is apart from what.
use hccl_reduce_scatter.Prelude.{
  ℕ, suc, ◌+◌, ◌*◌, ◌%◌, ◌<◌, ◌≡◌, ◌≢◌, ◌⊎◌, ◌∙◌, sym, ap, true, false, List, [], ◌∷◌, ◌++◌, map,
  arith, inl, inr, Bool-cases, ltb, ltb→lt, ◌==◌, ==_iff, get_or, range_from, append_assoc,
  append-nil, low_mask16,
}
use hccl_reduce_scatter.Ccu.{Address, Flight, Call, Inputs, bits, start, event_wait}
use hccl_reduce_scatter.Ccu.Device.{inside}
use hccl_reduce_scatter.Kernel.Args.{CcuTiledPartialReduceKernelArg}
use hccl_reduce_scatter.Kernel.Common.{nowhere, exchange}
use hccl_reduce_scatter.Kernel.Tiled.{
  tiled_calls, tiled_leaves, tiled_input, is_included, reduce_tiled_partial, fetch,
}
use hccl_reduce_scatter.Kernel.Tiled.Fetch.{
  pull_of, slot_of, own_leaf, fetch-map, leaf_slot, leaf_own,
}
use hccl_reduce_scatter.Kernel.Tiled.Pipeline.{tiled_calls-pipeline}
use hccl_reduce_scatter.Kernel.Tiled.Pipeline.Tiles.{pipeline, from_start, entry_at}
use hccl_reduce_scatter.Kernel.Tiled.Places.{
  Apart, Apart-sym, IsPlaced, tile, count, slot_addr, lands-Apart, lands_off_own,
}

pub Apart-inside :
    (d e : Address) (n m a : ℕ)
    → Apart d.addr n e.addr m
    → inside d n a ≡ true
    → inside e m a ≡ false
Apart-inside d e n m a apart h = ground arith

pub Apart-inside_back :
    (d e : Address) (n m a : ℕ)
    → Apart d.addr n e.addr m
    → inside e m a ≡ true
    → inside d n a ≡ false
Apart-inside_back d e n m a apart h = ground arith

module _ (k : CcuTiledPartialReduceKernelArg) (i : Inputs) {full : ℕ}
    (placed : IsPlaced k i full) where
  abbrev pub channels : ℕ
  channels = k.base.channel_count

  abbrev pub work : ℕ → List Address
  work t = tiled_leaves k i (tile k i placed t).offset (tile k i placed t).bank k.source_count 0

  abbrev pub leaf_at : ℕ → ℕ → Address
  leaf_at t p = get_or (work t) p nowhere

  abbrev pub bytes_of : ℕ → ℕ
  bytes_of t = (tile k i placed t).bytes

  pub leaf_cases :
      (t p : ℕ)
      → p < k.source_count
      → ((p < channels) × (leaf_at t p ≡ slot_of k i (tile k i placed t) p))
        ⊎ ((p ≡ channels)
            × (k.include_local_source ≡ true)
            × (leaf_at t p ≡ own_leaf k i (tile k i placed t)))
  leaf_cases t p h =
      let each = placed.channeled.one_channel_each in
      elim (Bool-cases (ltb p channels)) [
        | inl remote ↦
            let low = ltb→lt p channels remote in
            inl (low, leaf_slot k i placed.channeled (tile k i placed t) p low)
        | inr own ↦
            let included : k.include_local_source ≡ true = ground arith in
            let here : p ≡ channels = ground arith in
            inr (
              here,
              included,
              ap (leaf_at t) here ∙ leaf_own k i placed.channeled (tile k i placed t) included,
            )
      ]

  -- Where a contribution lands, and a leaf.
  pub leaf-Apart :
      (s t c p : ℕ)
      → s < count k i placed
      → t < count k i placed
      → c < channels
      → p < k.source_count
      → (c ≢ p) ⊎ ((s ≢ t) × ((c ≡ 0) ⊎ ((tile k i placed s).bank ≢ (tile k i placed t).bank)))
      → Apart (slot_addr k i placed s c) (bytes_of s) (leaf_at t p).addr (bytes_of t)
  leaf-Apart s t c p hs ht hc hp ne = elim (leaf_cases t p hp) [
    | inl (low, e) ↦ rw e (lands-Apart k i placed s t c p hs ht hc low ne)
    | inr (here, included, e) ↦ rw e (lands_off_own k i placed s t c included hs ht hc)
  ]

  pub tile-LeavesApart :
      (t : ℕ)
      → t < count k i placed
      → (s p : ℕ) → s < k.source_count
      → p < k.source_count
      → s ≢ p
      → Apart (leaf_at t s).addr (bytes_of t) (leaf_at t p).addr (bytes_of t)
  tile-LeavesApart t ht s p hs hp away = elim (leaf_cases t s hs) [
    | inl (low, e) ↦ rw e (leaf-Apart t t s p ht ht low hp (inl away))
    | inr (here, included, e) ↦ elim (leaf_cases t p hp) [
      | inl (low, e') ↦
          let flip = leaf-Apart t t p s ht ht low hs (inl (λ q. away (sym q))) in
          rw e' (Apart-sym _ _ _ _ flip)
      | inr (here', included', e') ↦ absurd (omega arith)
    ]
  ]

  pub overlap-banks :
      (t : ℕ)
      → t + 1 < count k i placed
      → (entry_at k i full (t + 1)).is_overlapped ≡ true
      → (tile k i placed t).bank ≢ (tile k i placed (t + 1)).bank
  overlap-banks t h flag = elim (Bool-cases (t + 1 == full)) [
    | inl last ↦
        let low : (t == full) ≡ false = ground arith in
        let here = (==_iff (t + 1) full).0 last in
        let odd = (==_iff (full % 2) 1).0 (rw last at flag) in rw (last, low) (λ e. omega arith)
    | inr away ↦ let low : (t == full) ≡ false = ground arith in rw (away, low) (λ e. omega arith)
  ]

  abbrev pub pulls : ℕ → List Flight
  pulls t = map (pull_of k i (tile k i placed t)) (range_from 0 channels)

  abbrev pub reduction : ℕ → List Call
  reduction t =
      reduce_tiled_partial k i (tile k i placed t).offset (tile k i placed t).bytes
        (tile k i placed t).bank

  -- The tiles from `t` on, with `r` more behind it.
  abbrev pub tiles_from : ℕ → ℕ → List Call
  tiles_from t r = pipeline k i (tile k i placed t) (map (entry_at k i full) (range_from (t + 1) r))

  pub tile_fetch :
      (t : ℕ)
      → fetch k i (tile k i placed t).offset (tile k i placed t).bytes (tile k i placed t).bank
        ≡ map (λ c. start (pull_of k i (tile k i placed t) c)) (range_from 0 channels)
  tile_fetch t = fetch-map k i placed.channeled (tile k i placed t)

  abbrev pub starts : ℕ → List Call
  starts t = map (λ c. start (pull_of k i (tile k i placed t) c)) (range_from 0 channels)

  abbrev pub waiting : List Call → List Call
  waiting cs = event_wait 0 (bits (low_mask16 channels)) ∷ cs

  pub tiles_last : (t : ℕ) → reduction t ++ [] ≡ tiles_from t 0
  unfolding pipeline
  tiles_last t = append-nil (reduction t)

  pub tiles_overlapped :
      (t r : ℕ)
      → (entry_at k i full (t + 1)).is_overlapped ≡ true
      → tiles_from t (suc r) ≡ starts (t + 1) ++ (reduction t ++ waiting (tiles_from (t + 1) r))
  unfolding pipeline
  tiles_overlapped t r flag = rw flag (
      ap (λ l. (l ++ reduction t) ++ waiting (tiles_from (t + 1) r)) (tile_fetch (t + 1))
      ∙ append_assoc (starts (t + 1)) (reduction t) (waiting (tiles_from (t + 1) r)))

  pub tiles_alone :
      (t r : ℕ)
      → (entry_at k i full (t + 1)).is_overlapped ≡ false
      → tiles_from t (suc r) ≡ reduction t ++ (starts (t + 1) ++ waiting (tiles_from (t + 1) r))
  unfolding pipeline
  tiles_alone t r flag = rw flag (
      ap (λ l. (reduction t ++ l) ++ waiting (tiles_from (t + 1) r)) (tile_fetch (t + 1))
      ∙ append_assoc (reduction t) (starts (t + 1)) (waiting (tiles_from (t + 1) r)))

  -- The calls behind the exchange of addresses.
  pub tiled_calls_tiles :
      (r : ℕ)
      → suc r ≡ count k i placed
      → tiled_calls k i
        ≡ exchange k.base
            (is_included k i)
            (tiled_input k i)
            (10 + 2 * k.source_count)
            k.source_count
          ++ (starts 0 ++ waiting (tiles_from 0 r))
  tiled_calls_tiles r h =
      tiled_calls-pipeline k i full placed.cut
      ∙ ap
          (λ l.
            exchange k.base (is_included k i) (tiled_input k i) (10 + 2 * k.source_count)
              k.source_count
            ++ l)
          (ap (λ n. from_start k i (map (entry_at k i full) (range_from 0 n))) (sym h)
            ∙ ap (λ l. l ++ waiting (tiles_from 0 r)) (tile_fetch 0))
