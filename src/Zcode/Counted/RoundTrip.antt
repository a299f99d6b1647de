-- ===== src/Zcode/Counted/RoundTrip.antt =====
-- Decoding what was encoded.
use super.Prelude.{
  ℕ, zero, suc, ◌+◌, ◌*◌, ◌/◌, ◌%◌, ◌^◌, ◌-◌, ◌≤◌, ◌<◌, ◌≡◌, ◌⊎◌, inl, inr, sym, ◌∙◌, ap, subst,
  true, false, some, List, [], ◌∷◌, ◌++◌, arith,
}
use super.Prelude.{nat_eq, ◌==◌, if◌then◌else◌, Bool-cases, length, All}
use mathlib.Core.Option
use super.Zcode.Counted.{
  ℤ, pos, negsuc, decode_counted_uvarint, counted_bytes, append_counted_uvarint, counted_varint,
  append_counted_varint, negate_half, decode_counted_varint,
}

abbrev pub IsByte : ℕ → Type 0
IsByte b = b < 256

-- The bytes stand for the number and there are no more of them than `n`.
pub record Encodes (n u : ℕ) (bs : List ℕ) : Type 0 where
  pub decodes : decode_counted_uvarint bs ≡ u
  pub short : length bs ≤ n
  pub bytes : All IsByte bs

counted_bytes-zero : (n u : ℕ) → u ≡ 0 → counted_bytes n u ≡ some []
unfolding counted_bytes
counted_bytes-zero zero u e = ground arith
counted_bytes-zero (suc n) u e = ground arith

counted_bytes-suc :
    (n u : ℕ) (bs : List ℕ)
    → (u == 0) ≡ false
    → counted_bytes n (u / 256) ≡ some bs
    → counted_bytes (suc n) u ≡ some (u % 256 ∷ bs)
unfolding counted_bytes
counted_bytes-suc n u bs e f = rw e (rw f)

div_lt : (u p : ℕ) → u < 256 * p → u / 256 < p
div_lt u p h = omega arith

decode-cons :
    (u : ℕ) (bs : List ℕ)
    → u < 2 ^ 64
    → decode_counted_uvarint bs ≡ u / 256
    → decode_counted_uvarint (u % 256 ∷ bs) ≡ u
unfolding decode_counted_uvarint
decode-cons u bs h e = omega arith

power_suc : (n : ℕ) → 256 ^ suc n ≡ 256 * 256 ^ n
power_suc n = ground arith

mod_IsByte : (u : ℕ) → IsByte (u % 256)
mod_IsByte u = omega arith

zero_lt : (u : ℕ) → u < 1 → u ≡ 0
zero_lt u h = omega arith

is_zero : (u : ℕ) → (u == 0) ≡ true → u ≡ 0
is_zero u e = ground arith

counted_bytes_none :
    (n u : ℕ) → u ≡ 0 → (bs : List ℕ) × (counted_bytes n u ≡ some bs) × Encodes n u bs
unfolding decode_counted_uvarint
counted_bytes_none n u e =
    ([], counted_bytes-zero n u e, record { decodes = sym e; short = omega arith; bytes = tt })

counted_bytes_lem :
    (n u : ℕ)
    → u < 256 ^ n
    → u < 2 ^ 64
    → (bs : List ℕ) × (counted_bytes n u ≡ some bs) × Encodes n u bs
counted_bytes_lem zero u h k = counted_bytes_none zero u (zero_lt u h)
counted_bytes_lem (suc n) u h k =
    let (bs, e, r) =
      counted_bytes_lem n (u / 256) (div_lt u (256 ^ n) (subst (λ p. u < p) (power_suc n) h))
        (omega arith) in
    elim (Bool-cases (u == 0)) [
      | inl f ↦ counted_bytes_none (suc n) u (is_zero u f)
      | inr f ↦ (
        u % 256 ∷ bs,
        counted_bytes-suc n u bs f e,
        record {
          decodes = decode-cons u bs k r.decodes;
          short = ground (arith, r.short);
          bytes = (mod_IsByte u, r.bytes);
        },
      )
    ]

-- Every uint64 is appended, as at most 8 bytes that decode to it.
pub append_counted_uvarint-Encodes :
    (dst : List ℕ) (u : ℕ)
    → u < 2 ^ 64
    → (bs : List ℕ) × (append_counted_uvarint dst u ≡ some (dst ++ bs)) × Encodes 8 u bs
unfolding append_counted_uvarint
append_counted_uvarint-Encodes dst u h =
    let (bs, e, r) = counted_bytes_lem 8 u h h in (bs, ap (Option.map (λ xs. dst ++ xs)) e, r)

-- The int64 are -(2 ^ 63) to 2 ^ 63 - 1.
unfoldable pub magnitude : ℤ → ℕ
magnitude (pos n) = n
magnitude (negsuc n) = n

abbrev pub IsInt64 : ℤ → Type 0
IsInt64 i = magnitude i < 2 ^ 63

-- What DecodeCountedVarint makes of the uint64.
abbrev decode_half : ℕ → ℤ
decode_half u = if u % 2 == 0 then pos (u / 2) else negate_half (u / 2)

pos_even : (n : ℕ) → n < 2 ^ 63 → (((n * 2) % 2 ^ 64) % 2 == 0) ≡ true
pos_even n h = ground arith

pos_half : (n : ℕ) → n < 2 ^ 63 → ((n * 2) % 2 ^ 64) / 2 ≡ n
pos_half n h = omega arith

negsuc_odd : (n : ℕ) → n < 2 ^ 63 → ((((n + 1) * 2) % 2 ^ 64 + 1) % 2 == 0) ≡ false
negsuc_odd n h = ground arith

negsuc_half :
    (n : ℕ)
    → n < 2 ^ 63
    → (((((n + 1) * 2) % 2 ^ 64 + 1) / 2 ≡ suc n)
        ⊎ (((((n + 1) * 2) % 2 ^ 64 + 1) / 2 ≡ 0) × (n ≡ 2 ^ 63 - 1)))
negsuc_half n h = omega arith

decode_half-counted_varint : (i : ℤ) → IsInt64 i → decode_half (counted_varint i) ≡ i
unfolding counted_varint negate_half magnitude
decode_half-counted_varint (pos n) h = rw (pos_even n h) (ap pos (pos_half n h))
decode_half-counted_varint (negsuc n) h = rw (negsuc_odd n h) (elim (negsuc_half n h) [
  | inl e ↦ ap negate_half e
  | inr (e, f) ↦ ap negate_half e ∙ ap negsuc (sym f)
])

counted_varint_lt : (i : ℤ) → IsInt64 i → counted_varint i < 2 ^ 64
unfolding counted_varint magnitude
counted_varint_lt (pos n) h = omega arith
counted_varint_lt (negsuc n) h = omega arith

-- What AppendCountedVarint appends for an int64 is at most 8 bytes, which DecodeCountedVarint turns
-- back into it; the least int64, whose negation overflows, is one of them.
pub decode_counted_varint-append :
    (dst : List ℕ) (i : ℤ)
    → IsInt64 i
    → (bs : List ℕ) × (append_counted_varint dst i ≡ some (dst ++ bs))
      × (decode_counted_varint bs ≡ i)
      × (length bs ≤ 8)
unfolding append_counted_varint decode_counted_varint
decode_counted_varint-append dst i h =
    let (bs, e, r) =
      append_counted_uvarint-Encodes dst (counted_varint i) (counted_varint_lt i h) in
    (bs, e, ap decode_half r.decodes ∙ decode_half-counted_varint i h, r.short)
