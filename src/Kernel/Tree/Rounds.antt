-- ===== src/Kernel/Tree/Rounds.antt =====
-- The pieces of the rounds of the reduction tree, and why they do not race.
use mathlib.Core.Path.{subst}
use hccl_reduce_scatter.Prelude.{
  ℕ, zero, suc, ◌+◌, ◌-◌, ◌/◌, ◌≤◌, ◌<◌, ◌≡◌, ◌≢◌, ◌⊎◌, refl, sym, ◌∙◌, true, false, List, [], ◌∷◌,
  ◌++◌, map, append_assoc, arith, inl, All-implies, All-beside_range, inr, Bool-cases, ltb, ltb→lt,
  get_or, range_from, low_mask16, All, All-map_range,
}
use hccl_reduce_scatter.Ccu.{
  Address, Flight, Call, start, bits, event_wait, HcclDataType, HcclReduceOp,
}
use hccl_reduce_scatter.Ccu.Device.{Device, IsLawful, inside, across, is_awaited}
use hccl_reduce_scatter.Ccu.Race.{IsRaceFree, AllCommute, Commutes}
use hccl_reduce_scatter.Ccu.Overlap.{AllCommute-joined, IsRaceFree-beside}
use hccl_reduce_scatter.Ccu.Disjoint.{Spares, Spares-Commutes}
use hccl_reduce_scatter.Ccu.Batch.{IsRaceFree-batch, AllCommute-range}
use hccl_reduce_scatter.Kernel.Common.{nowhere}
use hccl_reduce_scatter.Kernel.Tree.{tree_round, tree_rounds}
use hccl_reduce_scatter.Kernel.Tree.Waits.{reduce_piece, awaited_bit}

-- The ranges of `bytes` cells at two addresses have no cell in common.
abbrev pub AreApart : ℕ → ℕ → ℕ → Type 0
AreApart bytes a b = (a + bytes ≤ b) ⊎ (b + bytes ≤ a)

pub apart_lem :
    (bytes : ℕ) (d e : Address) (a : ℕ)
    → AreApart bytes d.addr e.addr
    → inside d bytes a ≡ true
    → inside e bytes a ≡ false
apart_lem bytes d e a apart h = ground arith

pub inside_at : (d : Address) (bytes j : ℕ) → j < bytes → inside d bytes (d.addr + j) ≡ true
inside_at d bytes j h = ground arith

pub across_at : (d e : Address) (j : ℕ) → across d e (d.addr + j) ≡ e.addr + j
across_at d e j = omega arith

module _ {V : Type 0} (D : Device V) (lawful : IsLawful D) (work : List Address) (bytes : ℕ)
    (type : HcclDataType) (op : HcclReduceOp) (event : ℕ) where
  abbrev pub leaf : ℕ → Address
  leaf t = get_or work t nowhere

  -- The first `n` leaves share no cell.
  abbrev pub LeavesApart : ℕ → Type 0
  LeavesApart n = (s t : ℕ) → s < n → t < n → s ≢ t → AreApart bytes (leaf s).addr (leaf t).addr

  abbrev pub piece : ℕ → ℕ → Flight
  piece base p = reduce_piece work bytes type op event base p

  pub piece-Spares :
      (n base h s t : ℕ)
      → LeavesApart n
      → h ≤ base
      → base + h ≤ n
      → s < h
      → t < h
      → s ≢ t
      → Spares (piece base t).transfer (piece base s).transfer
  piece-Spares n base h s t apart before within hs ht away = (
    λ a l.
        apart_lem bytes (leaf t) (leaf s) a
          (apart t s (omega arith) (omega arith) (λ e. away (sym e))) l,
    λ a l.
        apart_lem bytes (leaf t) (leaf (base + s)) a
          (apart t (base + s) (omega arith) (omega arith) (omega arith)) l,
  )

  abbrev pub round_calls : ℕ → List Call → List Call
  round_calls n rest =
      map (λ p. start (piece (n - n / 2) p)) (range_from 0 (n / 2))
      ++ (event_wait event (bits (low_mask16 (n / 2))) ∷ rest)

  pub round-split :
      (n : ℕ) (rest : List Call)
      → tree_round work bytes type op event n ++ rest ≡ round_calls n rest
  round-split n rest = append_assoc _ _ rest

  AllCommute-round :
      (n : ℕ)
      → n ≤ 16
      → 2 ≤ n
      → LeavesApart n
      → AllCommute D (map (piece (n - n / 2)) (range_from 0 (n / 2)))
  AllCommute-round n few two apart =
      let h = n / 2 in
      let base = n - h in
      AllCommute-range D (piece base) 0 h (λ s t lo lt hi.
        Spares-Commutes D lawful (piece base s) (piece base t)
          (piece-Spares n base h t s apart (omega arith) (omega arith) (omega arith) (omega arith)
            (omega arith))
          (piece-Spares n base h s t apart (omega arith) (omega arith) (omega arith) (omega arith)
            (omega arith)))

  round-awaited :
      (n : ℕ)
      → n ≤ 16
      → All
          (λ g. is_awaited event (bits (low_mask16 (n / 2))) g ≡ true)
          (map (piece (n - n / 2)) (range_from 0 (n / 2)))
  round-awaited n few =
      All-map_range (λ g. is_awaited event (bits (low_mask16 (n / 2))) g ≡ true) (piece (n - n / 2))
        0 (n / 2)
        (λ t lo hi.
          awaited_bit event (n / 2) t (piece (n - n / 2) t) refl refl (omega arith) (omega arith))

  pub rounds-IsRaceFree :
      (fuel n : ℕ)
      → n ≤ 16
      → LeavesApart n
      → IsRaceFree D (tree_rounds work bytes type op event fuel n) []
  unfolding tree_rounds
  rounds-IsRaceFree zero n few apart = refl
  rounds-IsRaceFree (suc fuel) n few apart = elim (Bool-cases (ltb 1 n)) [
    | inl more ↦
        let two = ltb→lt 1 n more in
        let h = n / 2 in
        let base = n - h in
        rw more (
          subst (λ cs. IsRaceFree D cs [])
            (sym (round-split n (tree_rounds work bytes type op event fuel base)))
            (IsRaceFree-batch D (piece base) (range_from 0 h) event (bits (low_mask16 h))
              (tree_rounds work bytes type op event fuel base) [] (AllCommute-round n few two apart)
              (round-awaited n few)
              (rounds-IsRaceFree fuel base (omega arith)
                (λ s t hs ht away. apart s t (omega arith) (omega arith) away))))
    | inr single ↦ rw single refl
  ]

  not_awaited :
      (bs : List Flight) (h : ℕ)
      → All (λ b. event ≢ b.event) bs
      → All (λ g. is_awaited event (bits (low_mask16 h)) g ≡ false) bs
  not_awaited bs h other = All-implies bs (λ b away. ground arith) other

  -- The rounds beside transfers `bs` of another event, which commute with every piece.
  pub rounds-IsRaceFree_beside :
      (fuel n : ℕ) (cs : List Call) (bs : List Flight)
      → n ≤ 16
      → LeavesApart n
      → AllCommute D bs
      → All (λ b. event ≢ b.event) bs
      → ((base p : ℕ)
          → 1 ≤ base
          → p < base
          → base + p < n
          → All (λ b. Commutes D b (piece base p)) bs)
      → IsRaceFree D cs bs
      → IsRaceFree D (tree_rounds work bytes type op event fuel n ++ cs) bs
  unfolding tree_rounds
  rounds-IsRaceFree_beside zero n cs bs few apart quiet other beside r = r
  rounds-IsRaceFree_beside (suc fuel) n cs bs few apart quiet other beside r =
      elim (Bool-cases (ltb 1 n)) [
        | inl more ↦
            let two = ltb→lt 1 n more in
            let h = n / 2 in
            let base = n - h in
            let rest = tree_rounds work bytes type op event fuel base in
            rw more (
              subst (λ l. IsRaceFree D l bs)
                (sym (
                  append_assoc (tree_round work bytes type op event n) rest cs
                  ∙ round-split n (rest ++ cs)))
                (IsRaceFree-beside D (piece base) (range_from 0 h) event (bits (low_mask16 h))
                  (rest ++ cs) bs
                  (AllCommute-joined D bs (map (piece base) (range_from 0 h)) quiet
                    (AllCommute-round n few two apart)
                    (All-beside_range (Commutes D) (piece base) 0 h bs
                      (λ t lo hi. beside base t (omega arith) (omega arith) (omega arith))))
                  (not_awaited bs h other) (round-awaited n few)
                  (rounds-IsRaceFree_beside fuel base cs bs (omega arith)
                    (λ s t hs ht away. apart s t (omega arith) (omega arith) away) quiet other
                    (λ b p lo below within. beside b p lo below (omega arith)) r)))
        | inr single ↦ rw single r
      ]
