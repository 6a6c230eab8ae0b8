-- ===== src/Kernel/Tiled/Footprint.antt =====
-- The cells that `CcuTiledPartialReduceKernel` fills and reads.
use mathlib.Core.Path.{subst}
use hccl_reduce_scatter.Prelude.{
  ℕ, zero, suc, ◌+◌, ◌*◌, ◌<◌, ◌≡◌, refl, ◌∙◌, sym, ap, Bool, true, false, List, [], ◌∷◌, ◌++◌,
  arith, inl, inr, Bool-cases, All, All-append, All-map_range, range_from,
}
use hccl_reduce_scatter.Ccu.{Flight, Call, Inputs}
use hccl_reduce_scatter.Ccu.Device.{Device, IsLawful, inside, fills, flights, perform_all}
use hccl_reduce_scatter.Ccu.Race.{Commutes}
use hccl_reduce_scatter.Ccu.Disjoint.{reads, perform_other, Spares-Commutes}
use hccl_reduce_scatter.Ccu.Program.{flights-append, flights_after_control}
use hccl_reduce_scatter.Kernel.Args.{CcuTiledPartialReduceKernelArg}
use hccl_reduce_scatter.Kernel.Common.Laws.{exchange-IsControl}
use hccl_reduce_scatter.Kernel.Tree.Values.{rounds-All}
use hccl_reduce_scatter.Kernel.Tiled.{tiled_calls, tiled_input, reduce_tiled_partial}
use hccl_reduce_scatter.Kernel.Tiled.Fetch.{pull_of, slot_of}
use hccl_reduce_scatter.Kernel.Tiled.Pipeline.Tiles.{entry_at}
use hccl_reduce_scatter.Kernel.Tiled.Places.{IsPlaced, tile, count}
use hccl_reduce_scatter.Kernel.Tiled.Leaves.{
  channels, work, leaf_at, bytes_of, leaf_cases, pulls, reduction, starts, waiting, tiles_from,
  tiles_last, tiles_overlapped, tiles_alone, tiled_calls_tiles,
}
use hccl_reduce_scatter.Kernel.Tiled.Values.{flights_starts}

-- A transfer fills cells of `F` only and reads local cells of `R` only.
abbrev pub Stays : (ℕ → Type 0) → (ℕ → Type 0) → Flight → Type 0
Stays F R f =
    ((a : ℕ) → fills f.transfer a ≡ true → F a) × ((a : ℕ) → reads f.transfer a ≡ true → R a)

module _ {V : Type 0} (D : Device V) (lawful : IsLawful D) where
  excluded :
      {F G : ℕ → Type 0} (p q : Bool) (a : ℕ)
      → ((a : ℕ) → F a → G a → ⊥)
      → (p ≡ true → F a)
      → (q ≡ true → G a)
      → p ≡ true
      → q ≡ false
  excluded p true a apart f g h = absurd (apart a (f h) (g refl))
  excluded p false a apart f g h = refl

  -- Transfers on regions that are apart commute.
  pub Stays-Commutes :
      {F R F' R' : ℕ → Type 0}
      → ((a : ℕ) → F a → F' a → ⊥)
      → ((a : ℕ) → F a → R' a → ⊥)
      → ((a : ℕ) → F' a → R a → ⊥)
      → (f g : Flight) → Stays F R f
      → Stays F' R' g
      → Commutes D f g
  Stays-Commutes fills_apart first second f g s s' =
      Spares-Commutes D lawful f g
        (
          λ a. excluded (fills f.transfer a) (fills g.transfer a) a fills_apart (s.0 a) (s'.0 a),
          λ a. excluded (fills f.transfer a) (reads g.transfer a) a first (s.0 a) (s'.1 a),
        )
        (
          λ a.
              excluded (fills g.transfer a) (fills f.transfer a) a (λ b x y. fills_apart b y x)
                (s'.0 a) (s.0 a),
          λ a. excluded (fills g.transfer a) (reads f.transfer a) a second (s'.0 a) (s.1 a),
        )

  -- Transfers that stay in a region keep the cells outside it.
  pub Stays-frame :
      (F R : ℕ → Type 0) (fs : List Flight) (m : ℕ → V) (a : ℕ)
      → All (Stays F R) fs
      → (F a → ⊥)
      → perform_all D fs m a ≡ m a
  Stays-frame F R [] m a h away = refl
  Stays-frame F R (f ∷ fs) m a h away =
      Stays-frame F R fs (D.perform f.transfer m) a h.1 away
      ∙ perform_other D lawful f.transfer m a (elim (Bool-cases (fills f.transfer a)) [
        | inl hit ↦ absurd (away (h.0.0 a hit))
        | inr miss ↦ miss
      ])

  module _ (k : CcuTiledPartialReduceKernelArg) (i : Inputs) {full : ℕ} (placed : IsPlaced k i full)
      (F R : ℕ → Type 0)
      (slots : (t c a : ℕ)
        → t < count k i placed
        → c < channels k i placed
        → inside (slot_of k i (tile k i placed t) c) (bytes_of k i placed t) a ≡ true
        → F a)
      (leaves : (t p a : ℕ)
        → t < count k i placed
        → p < k.source_count
        → inside (leaf_at k i placed t p) (bytes_of k i placed t) a ≡ true
        → R a) where
    pulls-Stays : (t : ℕ) → t < count k i placed → All (Stays F R) (pulls k i placed t)
    pulls-Stays t h =
        All-map_range (Stays F R) (pull_of k i (tile k i placed t)) 0 (channels k i placed)
          (λ c lo hi. (λ a. slots t c a h (omega arith), λ a l. cc l))

    reduction-Stays :
        (t : ℕ) → t < count k i placed → All (Stays F R) (flights (reduction k i placed t))
    unfolding reduce_tiled_partial
    reduction-Stays t h =
        rounds-All D lawful (work k i placed t) (bytes_of k i placed t) k.data_type k.reduce_op 1
          (Stays F R) k.source_count k.source_count
          (λ base p some lo hi. (
            λ a l. elim (leaf_cases k i placed t p (omega arith)) [
              | inl (low, e) ↦
                  slots t p a h low (subst (λ d. inside d (bytes_of k i placed t) a ≡ true) e l)
              | inr (here, included, e) ↦
                  let each = placed.channeled.one_channel_each in absurd (ground arith)
            ],
            λ a l. leaves t (base + p) a h hi l,
          ))

    starts-Stays :
        (t : ℕ) (cs : List Call)
        → t < count k i placed
        → All (Stays F R) (flights cs)
        → All (Stays F R) (flights (starts k i placed t ++ cs))
    starts-Stays t cs h rest =
        subst (All (Stays F R))
          (sym (
            flights-append (starts k i placed t) cs
            ∙ ap (λ l. l ++ flights cs)
                (flights_starts (pull_of k i (tile k i placed t))
                  (range_from 0 (channels k i placed)))))
          (All-append (Stays F R) (pulls k i placed t) (flights cs) (pulls-Stays t h) rest)

    with_reduction :
        (t : ℕ) (cs : List Call)
        → t < count k i placed
        → All (Stays F R) (flights cs)
        → All (Stays F R) (flights (reduction k i placed t ++ cs))
    with_reduction t cs h rest =
        subst (All (Stays F R)) (sym (flights-append (reduction k i placed t) cs)) (
          All-append (Stays F R) (flights (reduction k i placed t)) (flights cs)
            (reduction-Stays t h) rest)

    tiles-Stays :
        (t r : ℕ)
        → t + 1 + r ≡ count k i placed
        → All (Stays F R) (flights (tiles_from k i placed t r))
    tiles-Stays t zero h =
        subst (λ l. All (Stays F R) (flights l)) (tiles_last k i placed t)
          (with_reduction t [] (omega arith) tt)
    tiles-Stays t (suc r) h =
        let behind = tiles-Stays (t + 1) r (omega arith) in
        let rest = waiting k i placed (tiles_from k i placed (t + 1) r) in
        elim (Bool-cases (entry_at k i full (t + 1)).is_overlapped) [
          | inl flag ↦
              subst (λ l. All (Stays F R) (flights l)) (sym (tiles_overlapped k i placed t r flag))
                (starts-Stays (t + 1) (reduction k i placed t ++ rest) (omega arith)
                  (with_reduction t rest (omega arith) behind))
          | inr flag ↦
              subst (λ l. All (Stays F R) (flights l)) (sym (tiles_alone k i placed t r flag))
                (with_reduction t (starts k i placed (t + 1) ++ rest) (omega arith)
                  (starts-Stays (t + 1) rest (omega arith) behind))
        ]

    -- Every transfer of the kernel stays in the regions of its slots and leaves.
    pub tiled_calls-Stays :
        (r : ℕ) → suc r ≡ count k i placed → All (Stays F R) (flights (tiled_calls k i))
    tiled_calls-Stays r h =
        let body = starts k i placed 0 ++ waiting k i placed (tiles_from k i placed 0 r) in
        subst (All (Stays F R))
          (sym (
            ap flights (tiled_calls_tiles k i placed r h)
            ∙ flights_after_control _ body (
                exchange-IsControl k.base _ (tiled_input k i) (10 + 2 * k.source_count)
                  k.source_count)))
          (starts-Stays 0 (waiting k i placed (tiles_from k i placed 0 r)) (omega arith)
            (tiles-Stays 0 r (omega arith)))
