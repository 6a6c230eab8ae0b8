-- ===== src/Stream.antt =====
-- `BinaryStream` (include/binary_stream.h) on the bytes that it holds, as a way to write and to
-- read each type of value. Plain values are written in the little-endian order of the machine.
-- A read past the end leaves its variable unspecified, which is `none` here.
pub mod Laws
pub mod Context
use hccl_reduce_scatter.Prelude.{
  ℕ, zero, suc, ◌≡◌, ap, ◌+◌, ◌*◌, ◌/◌, ◌%◌, Option, none, some, List, [], ◌∷◌, ◌++◌, length,
  flat_map,
}

infixl 5 ◌>>=◌
abbrev pub ◌>>=◌ {ℓ κ} : {A : Type ℓ} {B : Type κ} → Option A → (A → Option B) → Option B
none >>= f = none
some a >>= f = f a

pub >>=_some {ℓ κ} :
    {A : Type ℓ} {B : Type κ} {o : Option A} {a : A} (f : A → Option B)
    → o ≡ some a
    → (o >>= f) ≡ f a
>>=_some f e = ap (λ o. o >>= f) e

-- `operator<<` and `operator>>` of a type.
pub record Codec (A : Type 0) : Type 0 where
  pub put : A → List ℕ
  pub get : List ℕ → Option (A × List ℕ)

-- `write` and `read` of the `w` bytes of a plain value.
unfoldable pub put_bytes : ℕ → ℕ → List ℕ
put_bytes zero x = []
put_bytes (suc w) x = x % 256 ∷ put_bytes w (x / 256)

unfoldable pub get_bytes : ℕ → List ℕ → Option (ℕ × List ℕ)
get_bytes zero bs = some (0, bs)
get_bytes (suc w) [] = none
get_bytes (suc w) (b ∷ bs) = get_bytes w bs >>= λ (v, rest). some (b + 256 * v, rest)

abbrev pub plain : ℕ → Codec ℕ
plain w = record { put = put_bytes w; get = get_bytes w }

-- `size_t`
abbrev pub size_codec : Codec ℕ
size_codec = plain 8

module _ {A : Type 0} (c : Codec A) where
  unfoldable pub get_many : ℕ → List ℕ → Option (List A × List ℕ)
  get_many zero bs = some ([], bs)
  get_many (suc n) bs =
      c.get bs >>= λ (x, rest). get_many n rest >>= λ (xs, end). some (x ∷ xs, end)

  -- The overloads for vectors, which nest.
  abbrev pub vector : Codec (List A)
  vector = record {
    put = λ xs. size_codec.put (length xs) ++ flat_map c.put xs;
    get = λ bs. size_codec.get bs >>= λ (n, rest). get_many n rest;
  }

-- The overloads for strings: the length, then the characters.
abbrev pub string_codec : Codec (List ℕ)
string_codec = vector (plain 1)
