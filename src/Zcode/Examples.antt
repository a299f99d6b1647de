-- ===== src/Zcode/Examples.antt =====
-- Runs of the model of zcode.
use super.Prelude.{ℕ, ◌≡◌, ◌≤◌, ◌++◌, refl, none, some, List, [], ◌∷◌, arith, length}
use super.Zcode.Counted.{
  ℤ, min_int64, append_counted_uvarint, append_counted_varint, decode_counted_varint,
}
use super.Types.{Bytes}
use super.Zcode.Bytes.{append, decode_tag_length, next_tag_and_body, iterate}
use super.Zcode.Bytes.RoundTrip.{append_values, iterate-append, decode_tag_length-append}
use super.Zcode.Builder.{Builder}
use super.Zcode.Builder.Encoding.{
  Item, leaf, container, no_items, item_and, encode_item, build_item, build_item_lem,
}
use super.Zcode.Counted.RoundTrip.{
  Encodes, append_counted_uvarint-Encodes, decode_counted_varint-append,
}

append_counted_uvarint-Encodes_example :
    (bs : List ℕ) × (append_counted_uvarint (7 ∷ []) 1000 ≡ some ((7 ∷ []) ++ bs))
    × Encodes 8 1000 bs
append_counted_uvarint-Encodes_example = append_counted_uvarint-Encodes (7 ∷ []) 1000 (omega arith)

decode_counted_varint-append_example :
    (bs : List ℕ) × (append_counted_varint [] min_int64 ≡ some ([] ++ bs))
    × (decode_counted_varint bs ≡ min_int64)
    × (length bs ≤ 8)
unfolding super.Zcode.Counted.RoundTrip.magnitude
decode_counted_varint-append_example = decode_counted_varint-append [] min_int64 (omega arith)

-- One byte stands for the least int64.
least : append_counted_varint [] min_int64 ≡ some (1 ∷ [])
unfolding append_counted_varint
least = refl

-- A null value, an empty one and one of two bytes.
abbrev three_values : List Bytes
three_values = none ∷ some [] ∷ some (200 ∷ 7 ∷ []) ∷ []

iterate-append_example : iterate 3 (append_values [] three_values) ≡ some three_values
iterate-append_example = iterate-append three_values (omega arith, (omega arith, (omega arith, tt)))

decode_tag_length-append_example :
    (decode_tag_length (append [] (some (200 ∷ 7 ∷ [])) ++ (1 ∷ []))
      ≡ some (length (append [] (some (200 ∷ 7 ∷ [])))))
    × (next_tag_and_body (append [] (some (200 ∷ 7 ∷ [])) ++ (1 ∷ []))
        ≡ some (append [] (some (200 ∷ 7 ∷ [])), 1 ∷ []))
decode_tag_length-append_example =
    decode_tag_length-append (some (200 ∷ 7 ∷ [])) (1 ∷ []) (omega arith)

-- A container that holds a value and an empty container, behind another value.
abbrev nested : Item
nested = container (item_and (leaf (some (5 ∷ []))) (item_and (container no_items) no_items))

abbrev begun : Builder
begun = record { bytes = 0 ∷ []; containers = [] }

build_item_lem_example :
    build_item begun nested ≡ some (record begun { bytes = begun.bytes ++ encode_item nested })
build_item_lem_example = build_item_lem nested begun

nested_bytes : build_item begun nested ≡ some (record begun { bytes = 0 ∷ 4 ∷ 2 ∷ 5 ∷ 1 ∷ [] })
unfolding build_item super.Zcode.Builder.end_container super.Zcode.Builder.begin_container
    super.Zcode.Builder.append
nested_bytes = refl
