-- ===== src/Collective/Spec/Trees.antt =====
-- The reduction tree combines all of its leaves, each once.
use mathlib.Core.List.{Permᴰ}
use mathlib.Core.List.Permᴰ
use mathlib.Core.Path.{subst}
use hccl_reduce_scatter.Prelude.{
  ℕ, zero, suc, ◌+◌, ◌-◌, ◌/◌, ◌≤◌, ◌<◌, ◌≡◌, refl, sym, ◌∙◌, ap, true, false, List, [], ◌∷◌, ◌++◌,
  map, append_assoc, arith, inl, inr, Bool-cases, ltb, ltb→lt, ltb→le, lt→ltb, le→ltb,
  if◌then◌else◌, range_from, flat_map,
}
use hccl_reduce_scatter.Collective.Spec.{Combines, single, join, Combines-perm}
use hccl_reduce_scatter.Collective.Spec.Orders.{perm_of_eq}
use hccl_reduce_scatter.Kernel.Tree.Values.{tree_value}

-- Four lists with the middle two exchanged.
exchange_middle :
    {V : Type 0} (a b c d : List V) → Permᴰ ((a ++ b) ++ (c ++ d)) ((a ++ c) ++ (b ++ d))
exchange_middle a b c d =
    Permᴰ.trans
      (perm_of_eq (append_assoc a b (c ++ d) ∙ ap (λ l. a ++ l) (sym (append_assoc b c d))))
      (Permᴰ.trans (Permᴰ.append_left a (Permᴰ.append_right d (Permᴰ.append_comm b c)))
        (perm_of_eq (ap (λ l. a ++ l) (append_assoc c b d) ∙ sym (append_assoc a c (b ++ d)))))

module _ {V : Type 0} (L : ℕ → List V) where
  flat_map_split :
      (a i b : ℕ)
      → flat_map L (range_from i a) ++ flat_map L (range_from (i + a) b)
        ≡ flat_map L (range_from i (a + b))
  flat_map_split zero i b =
      let from : i + 0 ≡ i = omega arith in
      let count : b ≡ 0 + b = omega arith in
      ap (λ j. flat_map L (range_from j b)) from ∙ ap (λ n. flat_map L (range_from i n)) count
  flat_map_split (suc a) i b =
      let next : i + suc a ≡ i + 1 + a = omega arith in
      let count : suc (a + b) ≡ suc a + b = omega arith in
      append_assoc (L i) (flat_map L (range_from (i + 1) a)) _
      ∙ ap (λ j. L i ++ (flat_map L (range_from (i + 1) a) ++ flat_map L (range_from j b))) next
      ∙ ap (λ l. L i ++ l) (flat_map_split a (i + 1) b)
      ∙ ap (λ n. flat_map L (range_from i n)) count

  -- The values at the first `h` places together with those `base` places behind them.
  flat_map_pairs :
      (base h i : ℕ) (M : ℕ → List V)
      → ((p : ℕ) → i ≤ p → p < i + h → M p ≡ L p ++ L (base + p))
      → Permᴰ
          (flat_map L (range_from i h) ++ flat_map L (range_from (base + i) h))
          (flat_map M (range_from i h))
  flat_map_pairs base zero i M pairs = Permᴰ.refl []
  flat_map_pairs base (suc h) i M pairs =
      let next : base + i + 1 ≡ base + (i + 1) = omega arith in
      Permᴰ.trans
        (exchange_middle (L i) (flat_map L (range_from (i + 1) h)) (L (base + i))
          (flat_map L (range_from (base + i + 1) h)))
        (Permᴰ.trans
          (perm_of_eq (
            ap
              (λ j.
                (L i ++ L (base + i))
                ++ (flat_map L (range_from (i + 1) h) ++ flat_map L (range_from j h)))
              next
            ∙ ap
                (λ l.
                  l
                  ++ (flat_map L (range_from (i + 1) h)
                      ++ flat_map L (range_from (base + (i + 1)) h)))
                (sym (pairs i (omega arith) (omega arith)))))
          (Permᴰ.append_left (M i)
            (flat_map_pairs base h (i + 1) M (λ p lo hi. pairs p (omega arith) (omega arith)))))

  flat_map-eq :
      (M : ℕ → List V) (i n : ℕ)
      → ((p : ℕ) → i ≤ p → p < i + n → L p ≡ M p)
      → flat_map L (range_from i n) ≡ flat_map M (range_from i n)
  flat_map-eq M i zero same = refl
  flat_map-eq M i (suc n) same = cc (
    same i (omega arith) (omega arith),
    flat_map-eq M (i + 1) n (λ p lo hi. same p (omega arith) (omega arith)),
  )

module _ {V : Type 0} (L : ℕ → List V) where
  -- The values after a round of the tree over `n` leaves.
  abbrev paired : ℕ → ℕ → List V
  paired n p = if ltb p (n / 2) then L p ++ L (n - n / 2 + p) else L p

  round-perm :
      (n : ℕ) → Permᴰ (flat_map L (range_from 0 n)) (flat_map (paired n) (range_from 0 (n - n / 2)))
  round-perm n =
      let h = n / 2 in
      let base = n - h in
      let d = base - h in
      let all : base + h ≡ n = omega arith in
      let low : h + d ≡ base = omega arith in
      let first = flat_map L (range_from 0 h) in
      let middle = flat_map L (range_from (0 + h) d) in
      let second = flat_map L (range_from (0 + base) h) in
      let place : 0 + base ≡ base + 0 = omega arith in
      Permᴰ.trans
        (perm_of_eq (
          ap (λ k. flat_map L (range_from 0 k)) (sym all)
          ∙ sym (flat_map_split L base 0 h)
          ∙ ap (λ k. flat_map L (range_from 0 k) ++ second) (sym low)
          ∙ ap (λ l. l ++ second) (sym (flat_map_split L h 0 d))
          ∙ append_assoc first middle second))
        (Permᴰ.trans (Permᴰ.append_left first (Permᴰ.append_comm middle second)) (
          Permᴰ.trans
            (perm_of_eq (
              sym (append_assoc first second middle)
              ∙ ap (λ k. (first ++ flat_map L (range_from k h)) ++ middle) place
              ∙ ap (λ l. (first ++ flat_map L (range_from (base + 0) h)) ++ l)
                  (flat_map-eq L (paired n) (0 + h) d
                    (λ p lo hi. let high : ltb p h ≡ false = le→ltb p h (omega arith) in rw high))))
            (Permᴰ.trans
              (Permᴰ.append_right (flat_map (paired n) (range_from (0 + h) d)) (
                flat_map_pairs L base h 0 (paired n)
                  (λ p lo hi. let below : ltb p h ≡ true = lt→ltb p h (omega arith) in rw below)))
              (perm_of_eq (
                flat_map_split (paired n) h 0 d
                ∙ ap (λ k. flat_map (paired n) (range_from 0 k)) low)))))

-- Where each value combines a list, the tree over the values combines all of the lists.
pub tree_value-Combines :
    {V : Type 0} (combine : V → V → V) (fuel n : ℕ) (v : ℕ → V) (L : ℕ → List V)
    → 1 ≤ n
    → n ≤ fuel
    → ((p : ℕ) → p < n → Combines combine (L p) (v p))
    → Combines combine (flat_map L (range_from 0 n)) (tree_value combine fuel n v)
unfolding tree_value
tree_value-Combines combine zero n v L some enough each = absurd (omega arith)
tree_value-Combines combine (suc fuel) n v L some enough each = elim (Bool-cases (ltb 1 n)) [
  | inl more ↦
      let two = ltb→lt 1 n more in
      let base = n - n / 2 in
      rw more (
        Combines-perm (round-perm L n) (
          tree_value-Combines combine fuel base _ (paired L n) (omega arith) (omega arith)
            (λ p below. elim (Bool-cases (ltb p (n / 2))) [
              | inl first ↦
                  let low = ltb→lt p (n / 2) first in
                  rw first (
                    join (each p (omega arith)) (each (base + p) (omega arith))
                      (Permᴰ.refl (L p ++ L (base + p))))
              | inr last ↦ rw last (each p (omega arith))
            ])))
  | inr lone ↦
      let one : n ≡ 1 = omega (arith, ltb→le 1 n lone) in
      rw lone (
        subst (λ k. Combines combine (flat_map L (range_from 0 k)) (v 0)) (sym one)
          (Combines-perm (Permᴰ.append-nil (L 0)) (each 0 (omega arith))))
]

flat_map-single :
    {V : Type 0} (f : ℕ → V) (i n : ℕ)
    → flat_map (λ t. f t ∷ []) (range_from i n) ≡ map f (range_from i n)
flat_map-single f i zero = refl
flat_map-single f i (suc n) = ap (λ l. f i ∷ l) (flat_map-single f (i + 1) n)

-- The tree over `n` values in another order combines the values.
pub ordered-Combines :
    {V : Type 0} (combine : V → V → V) (f : ℕ → V) (n : ℕ) (order : ℕ → ℕ)
    → 1 ≤ n
    → Permᴰ (map f (range_from 0 n)) (map (λ t. f (order t)) (range_from 0 n))
    → Combines combine (map f (range_from 0 n)) (tree_value combine n n (λ t. f (order t)))
ordered-Combines combine f n order some perm = Combines-perm perm (
    subst (λ l. Combines combine l (tree_value combine n n (λ t. f (order t))))
      (flat_map-single (λ t. f (order t)) 0 n)
      (tree_value-Combines combine n n (λ t. f (order t)) (λ t. f (order t) ∷ []) some (omega arith)
        (λ p below. single (Permᴰ.refl (f (order p) ∷ [])))))
