-- ===== src/Zcode/Bytes.antt =====
-- Sequences of encoded values: zcode/bytes.go and zcode/iter.go.
pub mod RoundTrip
use super.Prelude.{
  ℕ, zero, suc, ◌+◌, ◌-◌, ◌/◌, Bool, true, false, Option, none, some, List, [], ◌∷◌, ◌++◌,
}
use super.Prelude.{nat_eq, ◌==◌, if◌then◌else◌, leb, length}
use super.Prelude.Slice.{take, drop}
use super.Types.{Bytes}
use super.Zcode.Uvarint.{append_uvarint, uvarint}

abbrev pub to_tag : ℕ → ℕ
to_tag n = n + 1

-- The function Append; a nil value is `none`.
unfoldable pub append : List ℕ → Bytes → List ℕ
unfolding append_uvarint
append dst none = append_uvarint dst 0
append dst (some val) = append_uvarint dst (to_tag (length val)) ++ val

-- The loop of SizeOfUvarint, with fuel.
unfoldable pub size_loop : ℕ → ℕ → ℕ
size_loop zero x = 1
size_loop (suc fuel) x = let rest = size_loop fuel (x / 128) in if leb 128 x then suc rest else 1

-- The function SizeOfUvarint: the loop runs at most nine times for a uint64.
unfoldable pub size_of_uvarint : ℕ → ℕ
unfolding size_loop
size_of_uvarint = size_loop 9

-- The rest of Next and of NextTagAndBody behind the reading of the tag: where the value ends.
unfoldable pub value_end : ℕ × ℕ → ℕ
value_end (tag, n) = if tag == 0 then n else n + (tag - 1)

-- The method Next of Iter: the body and the rest, or `none` for a panic. The buffer has no capacity
-- beyond its length.
unfoldable pub next : List ℕ → Option (Bytes × List ℕ)
unfolding uvarint value_end
next i = elim (uvarint i) [
  | none ↦ none
  | some (tag, n) ↦
      if tag == 0
      then some (none, drop n i)
      else (let end = value_end (tag, n) in
          if leb end (length i) then some (some (drop n (take end i)), drop end i) else none)
]

-- The method NextTagAndBody.
unfoldable pub next_tag_and_body : List ℕ → Option (List ℕ × List ℕ)
unfolding uvarint value_end
next_tag_and_body i = elim (uvarint i) [
  | none ↦ none
  | some (tag, n) ↦
      let end = value_end (tag, n) in
      if leb end (length i) then some (take end i, drop end i) else none
]

-- The function DecodeTagLength; `none` is a panic.
unfoldable pub decode_tag_length : List ℕ → Option ℕ
unfolding uvarint
decode_tag_length b = elim (uvarint b) [
  | none ↦ none
  | some (tag, n) ↦ if tag == 0 then some n else some (tag + n - 1)
]

-- The method Body.
unfoldable pub body : List ℕ → Option Bytes
unfolding next
body b = elim (next b) [ none ↦ none | some (v, rest) ↦ some v ]

-- A loop that calls Next until Done, with fuel; the bodies in order.
unfoldable pub iterate : ℕ → List ℕ → Option (List Bytes)
unfolding next
iterate fuel [] = some []
iterate zero (b ∷ bs) = none
iterate (suc fuel) (b ∷ bs) = elim (next (b ∷ bs)) [
  | none ↦ none
  | some (v, rest) ↦ elim (iterate fuel rest) [ none ↦ none | some vs ↦ some (v ∷ vs) ]
]
