-- ===== src/Kernel/Tiled/Values.antt =====
-- What the fetches and the reductions of the tiles leave in memory.
use hccl_reduce_scatter.Prelude.{
  ℕ, ◌+◌, ◌<◌, ◌≡◌, ◌≢◌, refl, ◌∙◌, sym, ap, true, false, List, [], ◌∷◌, map, arith, inl, inr,
  Bool-cases, ltb, lt→ltb, le→ltb, ◌==◌, ==_iff, get_or, if◌then◌else◌,
}
use hccl_reduce_scatter.Ccu.{Address, Flight, Inputs, start}
use hccl_reduce_scatter.Ccu.Device.{Device, IsLawful, inside, perform_all, flights}
use hccl_reduce_scatter.Ccu.Batch.{batch_frame, batch_value}
use hccl_reduce_scatter.Kernel.Args.{CcuTiledPartialReduceKernelArg, channel_at, shift}
use hccl_reduce_scatter.Kernel.Common.{nowhere}
use hccl_reduce_scatter.Kernel.Tree.Rounds.{inside_at, across_at}
use hccl_reduce_scatter.Kernel.Tree.Values.{tree_value, rounds-value, rounds_frame}
use hccl_reduce_scatter.Kernel.Tiled.{tiled_offset, tiled_remotes, reduce_tiled_partial}
use hccl_reduce_scatter.Kernel.Tiled.Fetch.{remote_source, pull_of, slot_of, own_leaf, leaf_slot}
use hccl_reduce_scatter.Kernel.Tiled.Places.{
  IsPlaced, tile, count, slot_addr, lands-Apart, lands_off_own,
}
use hccl_reduce_scatter.Kernel.Tiled.Leaves.{
  Apart-inside, Apart-inside_back, channels, work, leaf_at, bytes_of, leaf_cases, leaf-Apart,
  tile-LeavesApart, pulls, reduction,
}

pub flights_starts :
    {A : Type 0} (f : A → Flight) (xs : List A) → flights (map (λ x. start (f x)) xs) ≡ map f xs
flights_starts f [] = refl
flights_starts f (x ∷ xs) = ap (λ l. f x ∷ l) (flights_starts f xs)

module _ (k : CcuTiledPartialReduceKernelArg) (i : Inputs) {full : ℕ} (placed : IsPlaced k i full)
    {V : Type 0} (D : Device V) (lawful : IsLawful D) where
  abbrev slot : ℕ → ℕ → Address
  slot t c = slot_of k i (tile k i placed t) c

  abbrev size : ℕ → ℕ
  size = bytes_of k i placed

  abbrev pub after_fetch : ℕ → (ℕ → V) → ℕ → V
  after_fetch t m = perform_all D (pulls k i placed t) m

  abbrev pub after_reduction : ℕ → (ℕ → V) → ℕ → V
  after_reduction t m = perform_all D (flights (reduction k i placed t)) m

  abbrev pub source_at : ℕ → ℕ → Address
  source_at t c =
      shift (shift (get_or (tiled_remotes k i) (remote_source k i c) nowhere) (tiled_offset k i))
        (tile k i placed t).offset

  -- What a channel brings for a cell of a tile.
  abbrev pub pulled : ℕ → ℕ → ℕ → V
  pulled t c x = D.remote (channel_at k.base c) ((source_at t c).addr + x)

  -- A cell that no contribution to the tile lands on.
  abbrev pub IsKept : ℕ → ℕ → Type 0
  IsKept t a = (c : ℕ) → c < channels k i placed → inside (slot t c) (size t) a ≡ false

  pub fetch_slot :
      (t c x : ℕ) (m : ℕ → V)
      → t < count k i placed
      → c < channels k i placed
      → x < size t
      → after_fetch t m (slot_addr k i placed t c + x) ≡ pulled t c x
  fetch_slot t c x m h below within =
      batch_value D lawful (pull_of k i (tile k i placed t)) 0 (channels k i placed) c
        (slot_addr k i placed t c + x) m (omega arith) (omega arith)
        (inside_at (slot t c) (size t) x within)
        (λ s lo hi away. (
          λ a.
              Apart-inside (slot t s) (slot t c) (size t) (size t) a
                (lands-Apart k i placed t t s c h h (omega arith) below (inl away)),
          λ a l. refl,
        ))
      ∙ ap (D.remote (channel_at k.base c)) (across_at (slot t c) (source_at t c) x)

  pub fetch_frame : (t a : ℕ) (m : ℕ → V) → IsKept t a → after_fetch t m a ≡ m a
  fetch_frame t a m kept =
      batch_frame D lawful (pull_of k i (tile k i placed t)) 0 (channels k i placed) a m
        (λ c lo hi. kept c (omega arith))

  pub reduction_frame : (t a : ℕ) (m : ℕ → V) → IsKept t a → after_reduction t m a ≡ m a
  unfolding reduce_tiled_partial
  reduction_frame t a m kept =
      rounds_frame D lawful (work k i placed t) (size t) k.data_type k.reduce_op 1 k.source_count
        k.source_count a m
        (λ p below. elim (leaf_cases k i placed t p (omega arith)) [
          | inl (low, e) ↦ rw e (kept p low)
          | inr (here, included, e) ↦
              let each = placed.channeled.one_channel_each in absurd (ground arith)
        ])

  abbrev pub reduced : ℕ → (ℕ → V) → V
  reduced n value = tree_value (D.combine k.data_type k.reduce_op) n n value

  pub reduction_value :
      (t x : ℕ) (m : ℕ → V)
      → t < count k i placed
      → x < size t
      → after_reduction t m (slot_addr k i placed t 0 + x)
        ≡ reduced k.source_count (λ p. m ((leaf_at k i placed t p).addr + x))
  unfolding reduce_tiled_partial
  reduction_value t x m h within =
      let each = placed.channeled.one_channel_each in
      let some = placed.some_channel in
      ap (λ l. after_reduction t m (l.addr + x))
        (sym (leaf_slot k i placed.channeled (tile k i placed t) 0 some))
      ∙ rounds-value D lawful (work k i placed t) (size t) k.data_type k.reduce_op 1 k.source_count
          k.source_count x m (omega arith) (tile-LeavesApart k i placed t h) within

  -- The output of a tile is kept by every other tile.
  pub output-IsKept :
      (s t x : ℕ)
      → s < count k i placed
      → t < count k i placed
      → s ≢ t
      → x < size s
      → IsKept t (slot_addr k i placed s 0 + x)
  output-IsKept s t x hs ht away within c below =
      let some = placed.some_channel in
      Apart-inside_back (slot t c) (slot s 0) (size t) (size s) (slot_addr k i placed s 0 + x)
        (lands-Apart k i placed t s c 0 ht hs below (omega arith) (elim (Bool-cases (c == 0)) [
          | inl first ↦ inr (λ e. away (sym e), inl ((==_iff c 0).0 first))
          | inr later ↦ inl (ground arith)
        ]))
        (inside_at (slot s 0) (size s) x within)

  own-IsKept :
      (s t x : ℕ)
      → k.include_local_source ≡ true
      → s < count k i placed
      → t < count k i placed
      → x < size s
      → IsKept t ((own_leaf k i (tile k i placed s)).addr + x)
  own-IsKept s t x included hs ht within c below =
      Apart-inside_back (slot t c) (own_leaf k i (tile k i placed s)) (size t) (size s)
        ((own_leaf k i (tile k i placed s)).addr + x)
        (lands_off_own k i placed t s c included ht hs below)
        (inside_at (own_leaf k i (tile k i placed s)) (size s) x within)

  -- The leaves of a tile are kept by a tile of the other bank.
  pub leaf-IsKept :
      (s t p x : ℕ)
      → s < count k i placed
      → t < count k i placed
      → (tile k i placed t).bank ≢ (tile k i placed s).bank
      → p < k.source_count
      → x < size s
      → IsKept t ((leaf_at k i placed s p).addr + x)
  leaf-IsKept s t p x hs ht banks hp within c below =
      Apart-inside_back (slot t c) (leaf_at k i placed s p) (size t) (size s)
        ((leaf_at k i placed s p).addr + x)
        (leaf-Apart k i placed t s c p ht hs below hp
          (inr (λ e. banks (ap (λ n. (tile k i placed n).bank) e), inr banks)))
        (inside_at (leaf_at k i placed s p) (size s) x within)

  pub slot-IsKept :
      (s t d x : ℕ)
      → s < count k i placed
      → t < count k i placed
      → (tile k i placed t).bank ≢ (tile k i placed s).bank
      → d < channels k i placed
      → x < size s
      → IsKept t (slot_addr k i placed s d + x)
  slot-IsKept s t d x hs ht banks hd within c below =
      Apart-inside_back (slot t c) (slot s d) (size t) (size s) (slot_addr k i placed s d + x)
        (lands-Apart k i placed t s c d ht hs below hd
          (inr (λ e. banks (ap (λ n. (tile k i placed n).bank) e), inr banks)))
        (inside_at (slot s d) (size s) x within)

  module _ (own : ℕ → ℕ → V) where
    -- The contribution at a leaf: what its channel brings, or the own one.
    abbrev pub contribution : ℕ → ℕ → ℕ → V
    contribution t x p = if ltb p (channels k i placed) then pulled t p x else own t x

    -- The own contribution is in its place.
    abbrev pub HasOwn : (ℕ → V) → Type 0
    HasOwn m =
        k.include_local_source ≡ true
        → (s x : ℕ) → s < count k i placed
        → x < size s
        → m ((own_leaf k i (tile k i placed s)).addr + x) ≡ own s x

    -- Each leaf of a tile holds its contribution.
    abbrev pub IsReady : ℕ → (ℕ → V) → Type 0
    IsReady t m =
        (p x : ℕ)
        → p < k.source_count
        → x < size t
        → m ((leaf_at k i placed t p).addr + x) ≡ contribution t x p

    pub IsReady_lem :
        (t : ℕ) (m : ℕ → V)
        → t < count k i placed
        → HasOwn m
        → ((c x : ℕ)
            → c < channels k i placed
            → x < size t
            → m (slot_addr k i placed t c + x) ≡ pulled t c x)
        → IsReady t m
    IsReady_lem t m h has slots p x hp within = elim (leaf_cases k i placed t p hp) [
      | inl (low, e) ↦ rw (e, lt→ltb p (channels k i placed) low) (slots p x low within)
      | inr (here, included, e) ↦
          rw (e, le→ltb p (channels k i placed) (omega arith)) (has included t x h within)
    ]

    pub HasOwn-fetch :
        (t : ℕ) (m : ℕ → V) → t < count k i placed → HasOwn m → HasOwn (after_fetch t m)
    HasOwn-fetch t m h has included s x hs within =
        fetch_frame t _ m (own-IsKept s t x included hs h within) ∙ has included s x hs within

    pub HasOwn-reduction :
        (t : ℕ) (m : ℕ → V) → t < count k i placed → HasOwn m → HasOwn (after_reduction t m)
    HasOwn-reduction t m h has included s x hs within =
        reduction_frame t _ m (own-IsKept s t x included hs h within) ∙ has included s x hs within
