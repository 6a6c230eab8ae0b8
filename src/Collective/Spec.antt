-- ===== src/Collective/Spec.antt =====
-- What a reduction promises, whatever its order: the value combines all contributions, each once.
pub mod Orders
pub mod Trees
use mathlib.Core.List.{Permᴰ}
use mathlib.Core.List.Permᴰ
use mathlib.Core.Path.{subst}
use hccl_reduce_scatter.Prelude.{
  ℕ, zero, suc, ◌+◌, ◌-◌, ◌/◌, ◌≤◌, ◌<◌, ◌≡◌, refl, sym, ◌∙◌, ap, List, [], ◌∷◌, ◌++◌, map, foldl,
  append_assoc, append-nil, arith,
}

module _ {V : Type 0} (combine : V → V → V) where
  -- `Combines values v`: `v` is the combination of the values, each taken once, in some order and
  -- with some bracketing.
  pub data Combines : List V → V → Type 0 where
    single : {x : V} {values : List V} → Permᴰ values (x ∷ []) → Combines values x
    join :
        {x y : V} {xs ys values : List V}
        → Combines xs x
        → Combines ys y
        → Permᴰ values (xs ++ ys)
        → Combines values (combine x y)

module _ {V : Type 0} {combine : V → V → V} where
  pub Combines-perm :
      {xs ys : List V} {v : V} → Permᴰ ys xs → Combines combine xs v → Combines combine ys v
  Combines-perm p (single q) = single (Permᴰ.trans p q)
  Combines-perm p (join a b q) = join a b (Permᴰ.trans p q)

  -- The accumulation from the left.
  pub Combines-foldl :
      {zs : List V} {acc : V} (xs : List V)
      → Combines combine zs acc
      → Combines combine (zs ++ xs) (foldl combine acc xs)
  Combines-foldl {zs} [] h = Combines-perm (Permᴰ.append-nil zs) h
  Combines-foldl {zs} {acc} (x ∷ xs) h =
      subst (λ l. Combines combine l (foldl combine (combine acc x) xs))
        (append_assoc zs (x ∷ []) xs)
        (Combines-foldl {zs = zs ++ (x ∷ [])} xs
          (join h (single (Permᴰ.refl (x ∷ []))) (Permᴰ.refl (zs ++ (x ∷ [])))))
