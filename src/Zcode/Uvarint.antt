-- ===== src/Zcode/Uvarint.antt =====
-- The variable-length integers of encoding/binary, which zcode uses for tags.
use super.Prelude.{
  ℕ, zero, suc, ◌+◌, ◌*◌, ◌/◌, ◌%◌, ◌^◌, ◌≤◌, ◌<◌, ◌≡◌, refl, ◌∙◌, ap, ap₂, subst, true, false,
  ◌&&◌, Option, none, some, inl, inr, List, [], ◌∷◌, ◌++◌, arith,
}
use super.Prelude.{nat_eq, ◌==◌, if◌then◌else◌, leb, ltb, length, Bool-cases}
use native.Mathlib.Nat.{pow-suc}

-- The loop of AppendUvarint, with fuel: `x` has at most `fuel` groups of seven bits behind its first.
unfoldable pub uvarint_bytes : ℕ → ℕ → List ℕ
uvarint_bytes zero x = (x % 256) ∷ []
uvarint_bytes (suc fuel) x =
    let rest = uvarint_bytes fuel (x / 128) in
    if leb 128 x then (x % 128 + 128) ∷ rest else (x ∷ [])

-- AppendUvarint: a uint64 has ten groups.
unfoldable pub append_uvarint : List ℕ → ℕ → List ℕ
unfolding uvarint_bytes
append_uvarint dst x = dst ++ uvarint_bytes 9 x

-- The loop of Uvarint at the index `i` with the shift `s`: the bits that are or-ed are disjoint. `none`
-- is a result that is not positive, for a buffer that ends or a number of more than 64 bits.
unfoldable pub read_uvarint : ℕ → ℕ → ℕ → List ℕ → Option (ℕ × ℕ)
read_uvarint i s x [] = none
read_uvarint i s x (b ∷ bs) =
    let rest = read_uvarint (i + 1) (s + 7) (x + b % 128 * 2 ^ s) bs in
    if i == 10
    then none
    else (if ltb b 128
        then (if (i == 9) && ltb 1 b then none else some (x + b * 2 ^ s, i + 1))
        else rest)

-- Uvarint: the number and how many bytes it took.
unfoldable pub uvarint : List ℕ → Option (ℕ × ℕ)
unfolding read_uvarint
uvarint = read_uvarint 0 0 0

power_add : (n s : ℕ) → 2 ^ (n + s) ≡ 2 ^ s * 2 ^ n
power_add zero s = let z : 0 + s ≡ s = omega arith in ap (λ k. 2 ^ k) z ∙ omega arith
power_add (suc n) s =
    let h = power_add n s in
    let e : 2 ^ suc n ≡ 2 ^ n * 2 = pow-suc 2 n in
    let g : 2 ^ suc (n + s) ≡ 2 ^ (n + s) * 2 = pow-suc 2 (n + s) in
    let a : suc n + s ≡ suc (n + s) = omega arith in
    ap (λ k. 2 ^ k) a ∙ g ∙ omega (arith, h, ap (λ k. 2 ^ s * k) e)

digit : (x q : ℕ) → x % 128 * q + x / 128 * (q * 128) ≡ x * q
digit x q = let e : x % 128 + x / 128 * 128 ≡ x = omega arith in omega (arith, ap (λ y. y * q) e)

below : (x q : ℕ) → x * q < 2 ^ 64 → x / 128 * (q * 128) < 2 ^ 64
below x q h = omega (arith, digit x q)

read_last :
    (i s x acc : ℕ) (rest : List ℕ)
    → i ≤ 9
    → x < 128
    → (i ≡ 9 → x < 2)
    → read_uvarint i s acc (x ∷ rest) ≡ some (acc + x * 2 ^ s, i + 1)
unfolding read_uvarint
read_last i s x acc rest h k l =
    let a : (i == 10) ≡ false = ground arith in
    let b : ltb x 128 ≡ true = ground arith in
    let c : ((i == 9) && ltb 1 x) ≡ false = elim (Bool-cases (i == 9)) [
      | inl t ↦ let n : x < 2 = l (ground arith) in ground arith
      | inr t ↦ rw t refl
    ] in
    rw (a, read_uvarint) (rw (b, read_uvarint) (rw (c, read_uvarint) refl))

read_more :
    (i s b acc : ℕ) (rest : List ℕ)
    → i ≤ 9
    → 128 ≤ b
    → read_uvarint i s acc (b ∷ rest) ≡ read_uvarint (i + 1) (s + 7) (acc + b % 128 * 2 ^ s) rest
unfolding read_uvarint
read_more i s b acc rest h k =
    let a : (i == 10) ≡ false = ground arith in
    let c : ltb b 128 ≡ false = ground arith in rw (a, read_uvarint) (rw (c, read_uvarint) refl)

last_group : (s x : ℕ) → s ≡ 63 → x * 2 ^ s < 2 ^ 64 → x < 2
last_group s x e h =
    let k : x * 2 ^ 63 < 2 ^ 64 = subst (λ z. x * 2 ^ z < 2 ^ 64) e h in omega arith

read_uvarint_bytes :
    (rest : List ℕ) (fuel i s x acc : ℕ)
    → i + fuel ≡ 9
    → s ≡ 7 * i
    → x * 2 ^ s < 2 ^ 64
    → read_uvarint i s acc (uvarint_bytes fuel x ++ rest)
      ≡ some (acc + x * 2 ^ s, i + length (uvarint_bytes fuel x))
unfolding uvarint_bytes
read_uvarint_bytes rest zero i s x acc e f h =
    let k : x < 2 = last_group s x (omega arith) h in
    let m : x % 256 ≡ x = omega arith in
    rw m (read_last i s x acc rest (omega arith) (omega arith) (λ q. k))
read_uvarint_bytes rest (suc fuel) i s x acc e f h = elim (Bool-cases (leb 128 x)) [
  | inl t ↦
      let k : 128 ≤ x = ground arith in
      let p : 2 ^ (s + 7) ≡ 2 ^ s * 128 = ap (λ k. 2 ^ k) (omega arith) ∙ power_add 7 s in
      let b : x % 128 ≡ (x % 128 + 128) % 128 = omega arith in
      let m : x / 128 * 2 ^ (s + 7) ≡ x / 128 * (2 ^ s * 128) = ap (λ q. x / 128 * q) p in
      let n : x % 128 * 2 ^ s ≡ (x % 128 + 128) % 128 * 2 ^ s = ap (λ r. r * 2 ^ s) b in
      let value : acc + (x % 128 + 128) % 128 * 2 ^ s + x / 128 * 2 ^ (s + 7) ≡ acc + x * 2 ^ s =
        omega (arith, digit x (2 ^ s), m, n) in
      let count : i + 1 + length (uvarint_bytes fuel (x / 128))
          ≡ i + suc (length (uvarint_bytes fuel (x / 128))) =
        omega arith in
      let go =
        read_uvarint_bytes rest fuel (i + 1) (s + 7) (x / 128) (acc + (x % 128 + 128) % 128 * 2 ^ s)
          (omega arith) (omega arith) (omega (arith, m, below x (2 ^ s) h)) in
      rw (t, uvarint_bytes)
        (read_more i s (x % 128 + 128) acc _ (omega arith) (omega arith)
          ∙ go
          ∙ ap₂ (λ v c. some (v, c)) value count)
  | inr t ↦
      let k : x < 128 = ground arith in
      rw (t, uvarint_bytes) (read_last i s x acc rest (omega arith) k (λ q. absurd (omega arith)))
]

-- What AppendUvarint appends of a uint64, Uvarint reads, whatever follows.
pub uvarint-append :
    (x : ℕ) (rest : List ℕ)
    → x < 2 ^ 64
    → uvarint (append_uvarint [] x ++ rest) ≡ some (x, length (append_uvarint [] x))
unfolding uvarint append_uvarint
uvarint-append x rest h =
    let e : 0 + x * 2 ^ 0 ≡ x = omega arith in
    let n : 0 + length (uvarint_bytes 9 x) ≡ length (uvarint_bytes 9 x) = omega arith in
    read_uvarint_bytes rest 9 0 0 x 0 (omega arith) (omega arith) (omega arith)
    ∙ ap₂ (λ v k. some (v, k)) e n
