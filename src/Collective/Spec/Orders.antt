-- ===== src/Collective/Spec/Orders.antt =====
-- The orders in which the kernels combine the contributions of `n` ranks.
use mathlib.Core.List.{Permᴰ}
use mathlib.Core.List.Permᴰ
use mathlib.Core.Path.{subst}
use hccl_reduce_scatter.Prelude.{
  ℕ, suc, ◌+◌, ◌-◌, ◌%◌, ◌<◌, ◌≡◌, sym, ◌∙◌, ap, List, [], ◌∷◌, ◌++◌, map, append_assoc, arith, ltb,
  if◌then◌else◌, range_from, range_split, map_along, cycle_below, cycle_past,
}

pub perm_of_eq : {V : Type 0} {xs ys : List V} → xs ≡ ys → Permᴰ xs ys
perm_of_eq {xs} e = subst (Permᴰ xs) e (Permᴰ.refl xs)

module _ {V : Type 0} (value : ℕ → V) where
  -- The cyclic order that begins with rank `s`.
  abbrev pub cyclic : ℕ → ℕ → List V
  cyclic n s = value s ∷ map (λ t. value ((s + t) % n)) (range_from 1 (n - 1))

  cyclic_parts :
      (n s : ℕ)
      → s < n
      → cyclic n s ≡ map value (range_from s (n - s)) ++ map value (range_from 0 s)
  cyclic_parts n s h =
      let f = λ (t : ℕ). value ((s + t) % n) in
      let after = n - s - 1 in
      let count : n - 1 ≡ after + s = omega arith in
      let turn : 1 + after ≡ n - s = omega arith in
      let full : suc after ≡ n - s = omega arith in
      ap (λ k. value s ∷ map f (range_from 1 k)) count
      ∙ ap (λ l. value s ∷ l) (sym (range_split f after 1 s))
      ∙ ap (λ l. value s ∷ l ++ map f (range_from (1 + after) s))
          (map_along f value 1 (s + 1) after (λ t below.
            let to : s + (1 + t) ≡ s + 1 + t = omega arith in
            ap value (cycle_below n s (1 + t) (omega arith) ∙ to)))
      ∙ ap (λ l. value s ∷ map value (range_from (s + 1) after) ++ l)
          (map_along f value (1 + after) 0 s (λ t below.
            let to : s + (1 + after + t) - n ≡ 0 + t = omega arith in
            ap value (cycle_past n s (1 + after + t) h (omega arith) (omega arith) ∙ to)))
      ∙ ap (λ k. map value (range_from s k) ++ map value (range_from 0 s)) full

  pub cyclic-perm : (n s : ℕ) → s < n → Permᴰ (map value (range_from 0 n)) (cyclic n s)
  cyclic-perm n s h =
      let count : s + (n - s) ≡ n = omega arith in
      let from : 0 + s ≡ s = omega arith in
      Permᴰ.trans
        (perm_of_eq (
          ap (λ k. map value (range_from 0 k)) (sym count)
          ∙ sym (range_split value s 0 (n - s))
          ∙ ap (λ k. map value (range_from 0 s) ++ map value (range_from k (n - s))) from))
        (Permᴰ.trans
          (Permᴰ.append_comm (map value (range_from 0 s)) (map value (range_from s (n - s))))
          (perm_of_eq (sym (cyclic_parts n s h))))

  -- The others in their order, then the own rank.
  abbrev pub own_last : ℕ → ℕ → ℕ → ℕ
  own_last n own t = if ltb t (n - 1) then if ltb t own then t else t + 1 else own

  own_last_parts :
      (n own : ℕ)
      → own < n
      → map (λ t. value (own_last n own t)) (range_from 0 n)
        ≡ (map value (range_from 0 own) ++ map value (range_from (own + 1) (n - 1 - own)))
          ++ (value own ∷ [])
  own_last_parts n own h =
      let g = λ (t : ℕ). value (own_last n own t) in
      let d = n - 1 - own in
      let count : n ≡ own + d + 1 = omega arith in
      ap (λ k. map g (range_from 0 k)) count
      ∙ sym (range_split g (own + d) 0 1)
      ∙ ap (λ l. l ++ map g (range_from (0 + (own + d)) 1)) (sym (range_split g own 0 d))
      ∙ ap (λ l. (l ++ map g (range_from (0 + own) d)) ++ map g (range_from (0 + (own + d)) 1))
          (map_along g value 0 0 own
            (λ t below. let same : own_last n own (0 + t) ≡ 0 + t = ground arith in ap value same))
      ∙ ap (λ l. (map value (range_from 0 own) ++ l) ++ map g (range_from (0 + (own + d)) 1))
          (map_along g value (0 + own) (own + 1) d (λ t below.
            let same : own_last n own (0 + own + t) ≡ own + 1 + t = ground arith in ap value same))
      ∙ ap (λ l. (map value (range_from 0 own) ++ map value (range_from (own + 1) d)) ++ l)
          (map_along g value (0 + (own + d)) own 1 (λ t below.
            let same : own_last n own (0 + (own + d) + t) ≡ own + t = ground arith in
            ap value same))

  pub own_last-perm :
      (n own : ℕ)
      → own < n
      → Permᴰ (map value (range_from 0 n)) (map (λ t. value (own_last n own t)) (range_from 0 n))
  own_last-perm n own h =
      let d = n - 1 - own in
      let before = map value (range_from 0 own) in
      let behind = map value (range_from (own + 1) d) in
      let count : own + suc d ≡ n = omega arith in
      Permᴰ.trans
        (perm_of_eq (
          ap (λ k. map value (range_from 0 k)) (sym count)
          ∙ sym (range_split value own 0 (suc d))
          ∙ ap (λ k. before ++ map value (range_from k (suc d))) from))
        (Permᴰ.trans (Permᴰ.append_left before (Permᴰ.append_comm (value own ∷ []) behind)) (
          perm_of_eq
            (sym (append_assoc before behind (value own ∷ [])) ∙ sym (own_last_parts n own h))))
    where
      from : 0 + own ≡ own
      from = omega arith
