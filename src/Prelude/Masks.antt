-- ===== src/Prelude/Masks.antt =====
-- The event masks of up to 16 transfers: the mask of all holds the bit of each.
use Prim.Native.Nat.{ℕ, zero, suc, ◌≤◌, ◌<◌, bit_and}
use mathlib.Core.Path.{◌≡◌, refl}
use mathlib.Core.Bool.{Bool, true, false, not, ◌||◌}
use native.Mathlib.Omega.{arith}
use hccl_reduce_scatter.Prelude.Tests.{if◌then◌else◌, ltb, ◌==◌, lt→ltb}
use hccl_reduce_scatter.Prelude.Words.{bit16, low_mask16, sub32}

-- The test passes at each of the first `count` numbers.
passes_table : (test : ℕ → Bool) (count : ℕ) → Bool
passes_table test zero = true
passes_table test (suc last) = if test last then passes_table test last else false

table_entry :
    (test : ℕ → Bool) (entry count : ℕ)
    → entry < count
    → passes_table test count ≡ true
    → test entry ≡ true
unfolding passes_table
table_entry test entry zero before whole = absurd (omega (arith, before))
table_entry test entry (suc last) before whole = ground (arith, table_entry test entry last)

-- Where bit `s` belongs to the mask of `n` transfers.
abbrev holds_bit : ℕ → ℕ → Bool
holds_bit n s = if ltb s n then not (bit_and (low_mask16 n) (bit16 s) == 0) else true

mask_table : passes_table (λ n. passes_table (holds_bit n) 16) 17 ≡ true
unfolding passes_table bit16 low_mask16 sub32
mask_table = refl

pub low_mask16-bit16 :
    (n s : ℕ) → n ≤ 16 → s < n → not (bit_and (low_mask16 n) (bit16 s) == 0) ≡ true
low_mask16-bit16 n s h k =
    let row = table_entry (λ n. passes_table (holds_bit n) 16) n 17 (omega arith) mask_table in
    rw (lt→ltb s n k) at (table_entry (holds_bit n) s 16 (omega arith) row)

-- Where only the transfers below `n` have a bit in the mask of `n` transfers.
abbrev spares_bit : ℕ → ℕ → Bool
spares_bit n s = if ltb s n then true else bit_and (low_mask16 n) (bit16 s) == 0

spared_table : passes_table (λ n. passes_table (spares_bit n) 16) 17 ≡ true
unfolding passes_table bit16 low_mask16 sub32
spared_table = refl

pub low_mask16-below :
    (n s : ℕ) → n ≤ 16 → s < 16 → not (bit_and (low_mask16 n) (bit16 s) == 0) ≡ true → s < n
low_mask16-below n s h few held =
    let row = table_entry (λ n. passes_table (spares_bit n) 16) n 17 (omega arith) spared_table in
    let entry = table_entry (spares_bit n) s 16 few row in ground arith

own_bit_table : passes_table (λ s. not (bit_and (bit16 s) (bit16 s) == 0)) 16 ≡ true
unfolding passes_table bit16
own_bit_table = refl

pub bit16-own : (s : ℕ) → s < 16 → not (bit_and (bit16 s) (bit16 s) == 0) ≡ true
bit16-own s h = table_entry (λ s. not (bit_and (bit16 s) (bit16 s) == 0)) s 16 h own_bit_table

-- `ADDR_READY | TOKEN_READY`: each bit of the mask is a bit of one of its parts.
ready_table :
    passes_table
      (λ b.
        if bit_and 6 (bit16 b) == 0
        then true
        else not (bit_and 4 (bit16 b) == 0) || not (bit_and 2 (bit16 b) == 0))
      16
    ≡ true
unfolding passes_table bit16
ready_table = refl

pub ready_parts :
    (b : ℕ)
    → b < 16
    → not (bit_and 6 (bit16 b) == 0) ≡ true
    → (not (bit_and 4 (bit16 b) == 0) || not (bit_and 2 (bit16 b) == 0)) ≡ true
ready_parts b h held =
    let entry =
      table_entry
        (λ b.
          if bit_and 6 (bit16 b) == 0
          then true
          else not (bit_and 4 (bit16 b) == 0) || not (bit_and 2 (bit16 b) == 0))
        b 16 h ready_table in
    ground arith
