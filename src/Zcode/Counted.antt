-- ===== src/Zcode/Counted.antt =====
-- Integers whose encoded length is known from outside (zcode/counted.go).
pub mod RoundTrip
use super.Prelude.{
  ℕ, zero, suc, ◌+◌, ◌*◌, ◌/◌, ◌%◌, ◌^◌, ◌-◌, Bool, true, false, Option, none, some, List, [], ◌∷◌,
  ◌++◌,
}
use super.Prelude.{nat_eq, ◌==◌, if◌then◌else◌}
use mathlib.Core.Option

-- An int64: `pos n` is n and `negsuc n` is -(n + 1).
pub data ℤ : Type 0 where
  pos : ℕ → ℤ
  negsuc : ℕ → ℤ

-- math.MinInt64
abbrev pub min_int64 : ℤ
min_int64 = negsuc (2 ^ 63 - 1)

-- The loop runs from the last byte to the first, and `u64 << 8` has room for the byte.
unfoldable pub decode_counted_uvarint : List ℕ → ℕ
decode_counted_uvarint [] = 0
decode_counted_uvarint (b ∷ bs) = (decode_counted_uvarint bs * 256) % 2 ^ 64 + b

-- The bytes that the loop of AppendCountedUvarint appends; `none` means that the fuel ran out.
unfoldable pub counted_bytes : ℕ → ℕ → Option (List ℕ)
counted_bytes zero u = if u == 0 then some [] else none
counted_bytes (suc fuel) u =
    let rest = counted_bytes fuel (u / 256) in
    if u == 0 then some [] else Option.map (λ bs. u % 256 ∷ bs) rest

-- A uint64 has at most 8 bytes. A nil slice gets the bytes that an empty one gets.
unfoldable pub append_counted_uvarint : List ℕ → ℕ → Option (List ℕ)
unfolding counted_bytes
append_counted_uvarint dst u = Option.map (λ bs. dst ++ bs) (counted_bytes 8 u)

-- The uint64 that stands for an int64: on the least one, `-i` is `i` and the shift drops its bit.
unfoldable pub counted_varint : ℤ → ℕ
counted_varint (pos n) = (n * 2) % 2 ^ 64
counted_varint (negsuc n) = ((n + 1) * 2) % 2 ^ 64 + 1

unfoldable pub append_counted_varint : List ℕ → ℤ → Option (List ℕ)
unfolding append_counted_uvarint counted_varint
append_counted_varint dst i = append_counted_uvarint dst (counted_varint i)

unfoldable pub negate_half : ℕ → ℤ
negate_half zero = min_int64
negate_half (suc n) = negsuc n

unfoldable pub decode_counted_varint : List ℕ → ℤ
unfolding decode_counted_uvarint negate_half
decode_counted_varint bs =
    let u = decode_counted_uvarint bs in if u % 2 == 0 then pos (u / 2) else negate_half (u / 2)
