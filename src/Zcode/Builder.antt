-- ===== src/Zcode/Builder.antt =====
-- The builder of nested values: zcode/builder.go.
pub mod Encoding
use super.Prelude.{
  ℕ, zero, suc, ◌+◌, ◌-◌, Bool, true, false, Option, none, some, List, [], ◌∷◌, ◌++◌,
}
use super.Prelude.{nat_eq, ◌==◌, if◌then◌else◌, leb, ltb, length}
use super.Prelude.Slice.{take, drop}
use super.Types.{Bytes}
use super.Zcode.Uvarint.{append_uvarint}
use super.Zcode.Bytes as Zcode

-- The struct Builder; the innermost open container comes first.
pub record Builder : Type 0 where
  pub bytes : List ℕ
  pub containers : List ℕ

-- The function NewBuilder, and the methods Reset and Truncate.
abbrev pub new_builder : Builder
new_builder = record { bytes = []; containers = [] }

unfoldable pub begin_container : Builder → Builder
begin_container b =
    let bytes = b.bytes ++ (0 ∷ []) in
    record { bytes = bytes; containers = length bytes ∷ b.containers }

-- PutUvarint at an offset: the bytes and how many were written, or `none` for a buffer that is short.
unfoldable pub put_uvarint : List ℕ → ℕ → ℕ → Option (List ℕ × ℕ)
unfolding append_uvarint
put_uvarint bytes off x =
    let tag = append_uvarint [] x in
    let n = length tag in
    if leb (off + n) (length bytes)
    then some (take off bytes ++ (tag ++ drop (off + n) bytes), n)
    else none

-- The body moves over where the tag takes more than the one byte that was left for it.
unfoldable pub make_room : List ℕ → ℕ → ℕ → ℕ → List ℕ
make_room bytes tag_off body_off tag_size =
    if ltb 1 tag_size then take (tag_off + tag_size) bytes ++ drop body_off bytes else bytes

-- The method EndContainer for the container with the body at `body_off`; `none` is a panic.
unfoldable pub end_at : List ℕ → ℕ → Option (List ℕ)
unfolding put_uvarint make_room Zcode.size_of_uvarint
end_at bytes body_off =
    let tag = Zcode.to_tag (length bytes - body_off) in
    let tag_size = Zcode.size_of_uvarint tag in
    let tag_off = body_off - 1 in
    elim (put_uvarint (make_room bytes tag_off body_off tag_size) tag_off tag) [
      | none ↦ none
      | some (put, n) ↦ if n == tag_size then some put else none
    ]

unfoldable pub end_container : Builder → Option Builder
unfolding end_at
end_container b = elim b.containers [
  | [] ↦ none
  | off ∷ outer ↦ elim (end_at b.bytes off) [
    | none ↦ none
    | some bytes ↦ some (record { bytes = bytes; containers = outer })
  ]
]

unfoldable pub transform_container : (List ℕ → List ℕ) → Builder → Option Builder
transform_container transform b = elim b.containers [
  | [] ↦ none
  | off ∷ outer ↦ some (record b { bytes = take off b.bytes ++ transform (drop off b.bytes) })
]

unfoldable pub append : Builder → Bytes → Builder
unfolding Zcode.append
append b v = record b { bytes = Zcode.append b.bytes v }

-- The method Bytes.
unfoldable pub finish : Builder → Option (List ℕ)
finish b = elim b.containers [ [] ↦ some b.bytes | off ∷ outer ↦ none ]
