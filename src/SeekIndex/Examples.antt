-- ===== src/SeekIndex/Examples.antt =====
-- Runs of the model of the seek index.
use super.Prelude.{ℕ, ◌≡◌, refl, Bool, true, false, not, some, List, [], ◌∷◌, map, arith}
use super.Prelude.{nat_eq, ltb}
use super.Prelude.Keep.{keep}
use super.Prelude.Slice.{take, drop}
use super.SeekIndex.{Entry, range_of, filter, lookup_seek_range, read_ranges, new_writer, write}
use super.SeekIndex.Cover.{
  Apart, covers, any, filter-covers, lookup_seek_range-covers, read_ranges-lookup_seek_range,
}
use super.SeekIndex.Written.{IsIndex, write-IsIndex, new_writer-IsIndex}

-- Three entries of ten bytes and two values each.
abbrev entry : ℕ → ℕ → Entry ℕ
entry o v = record { min = v; max = v; val_off = v; val_cnt = 2; offset = o; length = 10 }

abbrev index : List (Entry ℕ)
index = entry 0 0 ∷ entry 10 2 ∷ entry 20 4 ∷ []

abbrev bits : List Bool
bits = false ∷ true ∷ false ∷ false ∷ true ∷ false ∷ []

filter-covers_example :
    Apart (filter index bits)
    × ((x : ℕ)
        → covers x (filter index bits)
          ≡ covers x (map range_of (keep (λ e. any (take e.val_cnt (drop e.val_off bits))) index)))
filter-covers_example = filter-covers bits 0 index (refl, (refl, (refl, tt)))

-- The first and the last entry are hit, and they do not touch.
two_ranges :
    filter index bits
    ≡ (record { offset = 20; length = 10 } ∷ record { offset = 0; length = 10 } ∷ [])
unfolding filter
two_ranges = refl

abbrev prune_low : Entry ℕ → Bool
prune_low e = ltb e.max 2

lookup_seek_range-covers_example :
    Apart (lookup_seek_range (some prune_low) index)
    × ((x : ℕ)
        → covers x (lookup_seek_range (some prune_low) index)
          ≡ covers x (map range_of (keep (λ e. not (prune_low e)) index)))
lookup_seek_range-covers_example =
    lookup_seek_range-covers prune_low 0 index (refl, (refl, (refl, tt)))

abbrev prune_all : Entry ℕ → Bool
prune_all e = true

read_ranges-lookup_seek_range_example :
    read_ranges 30 (lookup_seek_range (some prune_all) index)
    ≡ (record { offset = 0; length = 30 } ∷ [])
read_ranges-lookup_seek_range_example =
    read_ranges-lookup_seek_range prune_all index 30 (refl, (refl, (refl, tt)))

write-IsIndex_example : IsIndex (write 1 2 5 80 (new_writer {V = ℕ}))
write-IsIndex_example =
    write-IsIndex 1 2 5 80 new_writer (omega arith) (omega arith) (omega arith) (omega arith)
      new_writer-IsIndex
