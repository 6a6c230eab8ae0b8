-- ===== src/Kernel/Tree/Values.antt =====
-- What the rounds of the reduction tree leave in memory.
use mathlib.Core.Path.{subst}
use hccl_reduce_scatter.Prelude.{
  ℕ, zero, suc, ◌+◌, ◌-◌, ◌/◌, ◌≤◌, ◌<◌, ◌≡◌, refl, sym, ◌∙◌, ap, false, List, ◌++◌, map, arith,
  inl, inr, Bool-cases, ltb, ltb→lt, ltb→le, get_or, range_from, low_mask16, if◌then◌else◌, All,
  All-append, All-map_range,
}
use hccl_reduce_scatter.Ccu.{Address, Flight, Call, bits, HcclDataType, HcclReduceOp}
use hccl_reduce_scatter.Ccu.Device.{Device, IsLawful, inside, perform_all, flights}
use hccl_reduce_scatter.Ccu.Batch.{flights_batch, batch_frame, batch_value}
use hccl_reduce_scatter.Ccu.Program.{perform_all_append}
use hccl_reduce_scatter.Kernel.Common.{nowhere}
use hccl_reduce_scatter.Kernel.Tree.{tree_round, tree_rounds}
use hccl_reduce_scatter.Kernel.Tree.Waits.{reduce_piece}
use hccl_reduce_scatter.Kernel.Tree.Rounds.{
  apart_lem, inside_at, across_at, LeavesApart, piece-Spares, round-split,
}

-- The value at the root of the tree over `n` values.
unfoldable pub tree_value : {V : Type 0} → (V → V → V) → ℕ → ℕ → (ℕ → V) → V
tree_value combine zero n value = value 0
tree_value combine (suc fuel) n value =
    let h = n / 2 in
    let rest =
      tree_value combine fuel (n - h)
        (λ p. if ltb p h then combine (value p) (value (n - h + p)) else value p) in
    if ltb 1 n then rest else value 0

pub tree_value-eq :
    {V : Type 0} (combine : V → V → V) (fuel n : ℕ) (v w : ℕ → V)
    → 1 ≤ n
    → ((p : ℕ) → p < n → v p ≡ w p)
    → tree_value combine fuel n v ≡ tree_value combine fuel n w
unfolding tree_value
tree_value-eq combine zero n v w some same = same 0 (omega arith)
tree_value-eq combine (suc fuel) n v w some same = elim (Bool-cases (ltb 1 n)) [
  | inl more ↦
      let two = ltb→lt 1 n more in
      rw more (
        tree_value-eq combine fuel (n - n / 2) _ _ (omega arith) (λ p below.
          elim (Bool-cases (ltb p (n / 2))) [
            | inl first ↦
                let low = ltb→lt p (n / 2) first in
                rw (first, same p (omega arith), same (n - n / 2 + p) (omega arith)) refl
            | inr last ↦ rw last (same p (omega arith))
          ]))
  | inr single ↦ rw single (same 0 (omega arith))
]

module _ {V : Type 0} (D : Device V) (lawful : IsLawful D) (work : List Address) (bytes : ℕ)
    (type : HcclDataType) (op : HcclReduceOp) (event : ℕ) where
  abbrev leaf : ℕ → Address
  leaf t = get_or work t nowhere

  abbrev piece : ℕ → ℕ → Flight
  piece base p = reduce_piece work bytes type op event base p

  -- A round and what follows it.
  round_effect :
      (n : ℕ) (rest : List Call) (a : ℕ) (m : ℕ → V)
      → perform_all D (flights (tree_round work bytes type op event n ++ rest)) m a
        ≡ perform_all D
            (flights rest)
            (perform_all D (map (piece (n - n / 2)) (range_from 0 (n / 2))) m)
            a
  round_effect n rest a m =
      ap (λ cs. perform_all D (flights cs) m a)
        (round-split D lawful work bytes type op event n rest)
      ∙ ap (λ fs. perform_all D fs m a)
          (flights_batch (piece (n - n / 2)) (range_from 0 (n / 2)) event
            (bits (low_mask16 (n / 2))) rest)
      ∙ ap (λ k. k a)
          (perform_all_append D (map (piece (n - n / 2)) (range_from 0 (n / 2))) (flights rest) m)

  -- A round combines the second half of the leaves into the first, cell by cell.
  round-value :
      (n p j : ℕ) (m : ℕ → V)
      → 2 ≤ n
      → LeavesApart D lawful work bytes type op event n
      → p < n - n / 2
      → j < bytes
      → perform_all D (map (piece (n - n / 2)) (range_from 0 (n / 2))) m ((leaf p).addr + j) ≡ (
          if ltb p (n / 2)
          then D.combine type op (m ((leaf p).addr + j)) (m ((leaf (n - n / 2 + p)).addr + j))
          else m ((leaf p).addr + j))
  round-value n p j m two apart below within = elim (Bool-cases (ltb p (n / 2))) [
    | inl first ↦
        let low = ltb→lt p (n / 2) first in
        rw first (
          batch_value D lawful (piece (n - n / 2)) 0 (n / 2) p ((leaf p).addr + j) m (omega arith)
            (omega arith) (inside_at (leaf p) bytes j within)
            (λ t lo hi away.
              piece-Spares D lawful work bytes type op event n (n - n / 2) (n / 2) p t apart
                (omega arith) (omega arith) low (omega arith) (λ e. away (sym e)))
          ∙ ap (λ a. D.combine type op (m ((leaf p).addr + j)) (m a))
              (across_at (leaf p) (leaf (n - n / 2 + p)) j))
    | inr last ↦
        let high = ltb→le p (n / 2) last in
        rw last (
          batch_frame D lawful (piece (n - n / 2)) 0 (n / 2) ((leaf p).addr + j) m (λ t lo hi.
            apart_lem bytes (leaf p) (leaf t) ((leaf p).addr + j)
              (apart p t (omega arith) (omega arith) (omega arith))
              (inside_at (leaf p) bytes j within)))
  ]

  pub rounds-value :
      (fuel n j : ℕ) (m : ℕ → V)
      → 1 ≤ n
      → LeavesApart D lawful work bytes type op event n
      → j < bytes
      → perform_all D (flights (tree_rounds work bytes type op event fuel n)) m ((leaf 0).addr + j)
        ≡ tree_value (D.combine type op) fuel n (λ t. m ((leaf t).addr + j))
  unfolding tree_rounds tree_value
  rounds-value zero n j m some apart within = refl
  rounds-value (suc fuel) n j m some apart within = elim (Bool-cases (ltb 1 n)) [
    | inl more ↦
        let two = ltb→lt 1 n more in
        let base = n - n / 2 in
        let rest = tree_rounds work bytes type op event fuel base in
        let m1 : ℕ → V = perform_all D (map (piece base) (range_from 0 (n / 2))) m in
        rw more (
          round_effect n rest ((leaf 0).addr + j) m
          ∙ rounds-value fuel base j m1 (omega arith)
              (λ s t hs ht away. apart s t (omega arith) (omega arith) away) within
          ∙ tree_value-eq (D.combine type op) fuel base (λ t. m1 ((leaf t).addr + j)) _
              (omega arith) (λ p below. round-value n p j m two apart below within))
    | inr single ↦ rw single refl
  ]

  -- The rounds fill no cell outside the leaves, nor any of the last leaf.
  pub rounds_frame :
      (fuel n a : ℕ) (m : ℕ → V)
      → ((p : ℕ) → p + 1 < n → inside (leaf p) bytes a ≡ false)
      → perform_all D (flights (tree_rounds work bytes type op event fuel n)) m a ≡ m a
  unfolding tree_rounds
  rounds_frame zero n a m away = refl
  rounds_frame (suc fuel) n a m away = elim (Bool-cases (ltb 1 n)) [
    | inl more ↦
        let two = ltb→lt 1 n more in
        let base = n - n / 2 in
        let rest = tree_rounds work bytes type op event fuel base in
        let m1 : ℕ → V = perform_all D (map (piece base) (range_from 0 (n / 2))) m in
        rw more (
          round_effect n rest a m
          ∙ rounds_frame fuel base a m1 (λ p below. away p (omega arith))
          ∙ batch_frame D lawful (piece base) 0 (n / 2) a m (λ t lo hi. away t (omega arith)))
    | inr single ↦ rw single refl
  ]

  -- What holds of every piece holds of every transfer of the rounds.
  pub rounds-All :
      (P : Flight → Type 0) (fuel n : ℕ)
      → ((base p : ℕ) → 1 ≤ base → p < base → base + p < n → P (piece base p))
      → All P (flights (tree_rounds work bytes type op event fuel n))
  unfolding tree_rounds
  rounds-All P zero n each = tt
  rounds-All P (suc fuel) n each = elim (Bool-cases (ltb 1 n)) [
    | inl more ↦
        let two = ltb→lt 1 n more in
        let h = n / 2 in
        let base = n - h in
        let rest = tree_rounds work bytes type op event fuel base in
        rw more (
          subst (All P)
            (sym (
              ap flights (round-split D lawful work bytes type op event n rest)
              ∙ flights_batch (piece base) (range_from 0 h) event (bits (low_mask16 h)) rest))
            (All-append P (map (piece base) (range_from 0 h)) (flights rest)
              (All-map_range P (piece base) 0 h
                (λ p lo hi. each base p (omega arith) (omega arith) (omega arith)))
              (rounds-All P fuel base (λ b p some lo hi. each b p some lo (omega arith)))))
    | inr single ↦ rw single tt
  ]
