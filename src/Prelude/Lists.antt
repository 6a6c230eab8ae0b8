-- ===== src/Prelude/Lists.antt =====
-- Lists measured and indexed by native numbers, under the library's names.
use Prim.Native.Nat.{ℕ, zero, suc, ◌+◌, ◌≤◌, ◌<◌}
use mathlib.Core.Path.{◌≡◌, refl, ap, ◌∙◌}
use mathlib.Core.Bool.{Bool, true, false}
use mathlib.Core.List.{List, [], ◌∷◌, ◌++◌, map}
use mathlib.Core.Option.{Option, none, some}
use native.Mathlib.Omega.{arith}

module _ {ℓ} {A : Type ℓ} where
  abbrev pub length : List A → ℕ
  length [] = 0
  length (x ∷ xs) = suc (length xs)

  abbrev pub get_elem? : List A → ℕ → Option A
  get_elem? [] i = none
  get_elem? (x ∷ xs) zero = some x
  get_elem? (x ∷ xs) (suc i) = get_elem? xs i

  abbrev pub get_or : List A → ℕ → A → A
  get_or [] i d = d
  get_or (x ∷ xs) zero d = x
  get_or (x ∷ xs) (suc i) d = get_or xs i d

  -- A vector has no element.
  abbrev pub is_empty : List A → Bool
  is_empty [] = true
  is_empty (x ∷ xs) = false

  pub length-append : (xs ys : List A) → length (xs ++ ys) ≡ length xs + length ys
  length-append [] ys = omega arith
  length-append (x ∷ xs) ys = omega (arith, length-append xs ys)

module _ {ℓ κ} {A : Type ℓ} {B : Type κ} where
  pub length-map : (xs : List A) (f : A → B) → length (map f xs) ≡ length xs
  length-map [] f = refl
  length-map (x ∷ xs) f = ap suc (length-map xs f)

-- The rounds `i, i + 1, …` of a counted loop, `n` of them.
abbrev pub range_from : ℕ → ℕ → List ℕ
range_from i zero = []
range_from i (suc n) = i ∷ range_from (i + 1) n

pub length-range_from : (i n : ℕ) → length (range_from i n) ≡ n
length-range_from i zero = refl
length-range_from i (suc n) = ap suc (length-range_from (i + 1) n)

abbrev pub flat_map {ℓ κ} : {A : Type ℓ} {B : Type κ} → (A → List B) → List A → List B
flat_map f [] = []
flat_map f (x ∷ xs) = f x ++ flat_map f xs

abbrev pub All {ℓ κ} : {A : Type ℓ} → (A → Type κ) → List A → Type κ
All P [] = Unit
All P (x ∷ xs) = P x × All P xs

pub All-append {ℓ κ} :
    {A : Type ℓ} (P : A → Type κ) (xs ys : List A) → All P xs → All P ys → All P (xs ++ ys)
All-append P [] ys h k = k
All-append P (x ∷ xs) ys h k = (h.0, All-append P xs ys h.1 k)

pub All-implies {ℓ κ} :
    {A : Type ℓ} {P Q : A → Type κ} (xs : List A) → ((x : A) → P x → Q x) → All P xs → All Q xs
All-implies [] imp h = tt
All-implies (x ∷ xs) imp h = (imp x h.0, All-implies xs imp h.1)

-- Two functions that agree on the rounds of a loop.
pub map-range_from {ℓ} :
    {B : Type ℓ} (f g : ℕ → B) (i n : ℕ)
    → ((j : ℕ) → i ≤ j → j < i + n → f j ≡ g j)
    → map f (range_from i n) ≡ map g (range_from i n)
map-range_from f g i zero h = refl
map-range_from f g i (suc n) h = cc (
  h i (omega arith) (omega arith),
  map-range_from f g (i + 1) n (λ j lo hi. h j (omega arith) (omega arith)),
)

pub All-map_range {ℓ κ} :
    {B : Type ℓ} (P : B → Type κ) (f : ℕ → B) (i n : ℕ)
    → ((t : ℕ) → i ≤ t → t < i + n → P (f t))
    → All P (map f (range_from i n))
All-map_range P f i zero h = tt
All-map_range P f i (suc n) h = (
  h i (omega arith) (omega arith),
  All-map_range P f (i + 1) n (λ t lo hi. h t (omega arith) (omega arith)),
)

-- Two nested loops, in either order.
pub All-beside_range {ℓ κ} :
    {A : Type ℓ} {B : Type ℓ} (P : A → B → Type κ) (f : ℕ → B) (i n : ℕ) (xs : List A)
    → ((t : ℕ) → i ≤ t → t < i + n → All (λ x. P x (f t)) xs)
    → All (λ x. All (P x) (map f (range_from i n))) xs
All-beside_range P f i n [] h = tt
All-beside_range P f i n (x ∷ xs) h = (
  All-map_range (P x) f i n (λ t lo hi. (h t lo hi).0),
  All-beside_range P f i n xs (λ t lo hi. (h t lo hi).1),
)

-- A range in two parts.
pub range_split {ℓ} :
    {B : Type ℓ} (f : ℕ → B) (a i b : ℕ)
    → map f (range_from i a) ++ map f (range_from (i + a) b) ≡ map f (range_from i (a + b))
range_split f zero i b =
    let start : i + 0 ≡ i = omega arith in
    let count : b ≡ 0 + b = omega arith in
    ap (λ j. map f (range_from j b)) start ∙ ap (λ n. map f (range_from i n)) count
range_split f (suc a) i b =
    let next : i + suc a ≡ i + 1 + a = omega arith in
    let count : suc (a + b) ≡ suc a + b = omega arith in
    ap (λ j. f i ∷ map f (range_from (i + 1) a) ++ map f (range_from j b)) next
    ∙ ap (λ l. f i ∷ l) (range_split f a (i + 1) b)
    ∙ ap (λ n. map f (range_from i n)) count

pub shift_range {ℓ} :
    {B : Type ℓ} (f : ℕ → B) (i n : ℕ)
    → map f (range_from (suc i) n) ≡ map (λ j. f (suc j)) (range_from i n)
shift_range f i zero = refl
shift_range f i (suc n) =
    let next : suc i + 1 ≡ suc (i + 1) = omega arith in
    ap (λ j. f (suc i) ∷ map f (range_from j n)) next
    ∙ ap (λ l. f (suc i) ∷ l) (shift_range f (i + 1) n)

-- Two functions that agree along two ranges.
pub map_along {ℓ} :
    {B : Type ℓ} (f g : ℕ → B) (i j n : ℕ)
    → ((t : ℕ) → t < n → f (i + t) ≡ g (j + t))
    → map f (range_from i n) ≡ map g (range_from j n)
map_along f g i j zero same = refl
map_along f g i j (suc n) same =
    let first : i + 0 ≡ i = omega arith in
    let first' : j + 0 ≡ j = omega arith in
    let rest = map_along f g (i + 1) (j + 1) n (λ t h.
      let next : i + 1 + t ≡ i + (t + 1) = omega arith in
      let next' : j + (t + 1) ≡ j + 1 + t = omega arith in
      ap f next ∙ same (t + 1) (omega arith) ∙ ap g next') in
    cc (ap f first, ap g first', same 0 (omega arith), rest)
