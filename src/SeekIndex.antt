-- ===== src/SeekIndex.antt =====
-- The seek index of a data object: lake/seekindex, lake/data/seekindex.go and lake/data/reader.go.
pub mod Cover
pub mod Written
pub mod Examples
use super.Prelude.{
  ℕ, zero, suc, ◌+◌, ◌-◌, ◌%◌, ◌^◌, Bool, true, false, not, ◌&&◌, ◌||◌, Option, none, some, List,
  [], ◌∷◌, ◌++◌,
}
use super.Prelude.{leb, ltb, length, if◌then◌else◌}

-- The struct Entry; `V` is the type of values.
pub record Entry (V : Type 0) : Type 0 where
  pub min : V
  pub max : V
  pub val_off : ℕ
  pub val_cnt : ℕ
  pub offset : ℕ
  pub length : ℕ

pub record Range : Type 0 where
  pub offset : ℕ
  pub length : ℕ

-- The type Ranges, the last range first.
abbrev pub Ranges : Type 0
Ranges = List Range

-- The method Range. Offsets in an object are below 2 ^ 63, so they do not change as int64.
abbrev pub range_of : {V : Type 0} → Entry V → Range
range_of e = record { offset = e.offset; length = e.length }

-- The method Append.
unfoldable pub append : {V : Type 0} → Ranges → Entry V → Ranges
append [] e = range_of e ∷ []
append (r ∷ rs) e =
    if ltb (r.offset + r.length) e.offset
    then range_of e ∷ (r ∷ rs)
    else (record r { length = r.length + e.length } ∷ rs)

-- The loops that append those entries of an index which pass a test.
unfoldable pub select : {V : Type 0} → (Entry V → Bool) → Ranges → List (Entry V) → Ranges
unfolding append
select p rs [] = rs
select p rs (e ∷ es) = let rs' = (if p e then append rs e else rs) in select p rs' es

-- The inner loop of Filter, over the `n` values from `off` on. A vector.Bool is its bits, in order.
unfoldable pub any_set : List Bool → ℕ → ℕ → Bool
any_set [] off n = false
any_set (b ∷ bs) zero zero = false
any_set (b ∷ bs) zero (suc n) = let rest = any_set bs zero n in b || rest
any_set (b ∷ bs) (suc off) n = any_set bs off n

-- The method Filter of Index.
unfoldable pub filter : {V : Type 0} → List (Entry V) → List Bool → Ranges
unfolding select any_set
filter index b = select (λ e. any_set b e.val_off e.val_cnt) [] index

-- The function LookupSeekRange, for an index that is read without an error: `none` is a nil pruner,
-- and a pruner gives true for an entry that can be left out.
unfoldable pub lookup_seek_range : {V : Type 0} → Option (Entry V → Bool) → List (Entry V) → Ranges
unfolding select
lookup_seek_range none index = []
lookup_seek_range (some pruner) index = select (λ e. not (pruner e)) [] index

-- What a Reader of an object with `size` bytes reads, by the method NewReader.
unfoldable pub read_ranges : ℕ → Ranges → Ranges
read_ranges size [] = record { offset = 0; length = size } ∷ []
read_ranges size (r ∷ rs) = r ∷ rs

-- The struct Writer, with the entries it has written.
pub record Writer (V : Type 0) : Type 0 where
  pub offset : ℕ
  pub valoff : ℕ
  pub entries : List (Entry V)

abbrev pub new_writer : {V : Type 0} → Writer V
new_writer = record { offset = 0; valoff = 0; entries = [] }

abbrev pub minus64 : ℕ → ℕ → ℕ
minus64 a b = (a + 2 ^ 64 - b) % 2 ^ 64

-- The method Write, without an error of the writer below.
unfoldable pub write : {V : Type 0} → V → V → ℕ → ℕ → Writer V → Writer V
write min max valoff offset w = record {
  offset = offset;
  valoff = valoff;
  entries =
      w.entries
      ++ (record {
        min = min;
        max = max;
        val_off = w.valoff;
        val_cnt = minus64 valoff w.valoff;
        offset = w.offset;
        length = minus64 offset w.offset;
      }
          ∷ []);
}
