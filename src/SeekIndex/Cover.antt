-- ===== src/SeekIndex/Cover.antt =====
-- What the selected ranges cover.
use super.Prelude.{
  ℕ, zero, suc, ◌+◌, ◌≤◌, ◌<◌, ◌≡◌, refl, sym, ◌∙◌, ap, Bool, true, false, not, ◌&&◌, ◌||◌, some,
  inl, inr, List, [], ◌∷◌, map, arith,
}
use super.Prelude.{leb, ltb, All, Bool-cases}
use super.Prelude.Keep.{keep, keep_agree}
use super.Prelude.Slice.{take, drop, drop_nil, take_nil}
use super.SeekIndex.{
  Entry, Range, Ranges, range_of, append, select, any_set, filter, lookup_seek_range, read_ranges,
}

abbrev pub inside : ℕ → Range → Bool
inside x r = leb r.offset x && ltb x (r.offset + r.length)

-- An offset is in one of the ranges.
abbrev pub covers : ℕ → Ranges → Bool
covers x [] = false
covers x (r ∷ rs) = inside x r || covers x rs

-- The entries of an index follow one another from an offset on.
abbrev pub Contiguous : {V : Type 0} → ℕ → List (Entry V) → Type 0
Contiguous o [] = Unit {0}
Contiguous o (e ∷ es) = (e.offset ≡ o) × Contiguous (o + e.length) es

-- The last range ends before an offset, or at it.
abbrev Before : ℕ → Ranges → Type 0
Before o [] = Unit {0}
Before o (r ∷ rs) = r.offset + r.length ≤ o

-- Between two ranges there is a gap.
abbrev pub Apart : Ranges → Type 0
Apart [] = Unit {0}
Apart (r ∷ []) = Unit {0}
Apart (r ∷ (q ∷ rs)) = (q.offset + q.length < r.offset) × Apart (q ∷ rs)

Before-later : (o n : ℕ) (rs : Ranges) → Before o rs → Before (o + n) rs
Before-later o n [] h = tt
Before-later o n (r ∷ rs) h = omega arith

Apart-longer :
    (r : Range) (n : ℕ) (rs : Ranges) → Apart (r ∷ rs) → Apart (record r { length = n } ∷ rs)
Apart-longer r n [] h = tt
Apart-longer r n (q ∷ rs) h = h

or_assoc : (a b c : Bool) → (a || (b || c)) ≡ ((a || b) || c)
or_assoc true b c = refl
or_assoc false b c = refl

inside_extended :
    {V : Type 0} (x : ℕ) (r : Range) (e : Entry V)
    → e.offset ≡ r.offset + r.length
    → inside x (record r { length = r.length + e.length }) ≡ (inside x (range_of e) || inside x r)
inside_extended x r e h = ground arith

record Appended {V : Type 0} (o : ℕ) (rs : Ranges) (e : Entry V) : Type 0 where
  before : Before (o + e.length) (append rs e)
  apart : Apart (append rs e)
  covered : (x : ℕ) → covers x (append rs e) ≡ (inside x (range_of e) || covers x rs)

append-Appended :
    {V : Type 0} (o : ℕ) (rs : Ranges) (e : Entry V)
    → e.offset ≡ o
    → Before o rs
    → Apart rs
    → Appended o rs e
unfolding append
append-Appended o [] e h b a = record { before = omega arith; apart = tt; covered = λ x. refl }
append-Appended o (r ∷ rs) e h b a = elim (Bool-cases (ltb (r.offset + r.length) e.offset)) [
  | inl t ↦ record {
    before = rw (t, append) (omega arith);
    apart = rw (t, append) (ground arith, a);
    covered = λ x. rw (t, append) refl;
  }
  | inr t ↦
      let meet : e.offset ≡ r.offset + r.length = ground arith in
      record {
        before = rw (t, append) (omega arith);
        apart = rw (t, append) (Apart-longer r (r.length + e.length) rs a);
        covered = λ x.
            rw (t, append)
              (ap (λ y. y || covers x rs) (inside_extended x r e meet)
                ∙ sym (or_assoc (inside x (range_of e)) (inside x r) (covers x rs)));
      }
]

record Selected {V : Type 0} (p : Entry V → Bool) (rs qs : Ranges) (es : List (Entry V))
    : Type 0 where
  pub apart : Apart qs
  pub covered : (x : ℕ) → covers x qs ≡ (covers x (map range_of (keep p es)) || covers x rs)

or_false : (a : Bool) → (a || false) ≡ a
or_false true = refl
or_false false = refl

or_swap : (a b c : Bool) → (a || (b || c)) ≡ ((b || a) || c)
or_swap true true c = refl
or_swap true false c = refl
or_swap false b c = ap (λ y. y || c) (sym (or_false b))

select-Selected :
    {V : Type 0} (p : Entry V → Bool) (es : List (Entry V)) (o : ℕ) (rs : Ranges)
    → Contiguous o es
    → Before o rs
    → Apart rs
    → Selected p rs (select p rs es) es
unfolding select keep
select-Selected p [] o rs h b a = record { apart = a; covered = λ x. refl }
select-Selected p (e ∷ es) o rs h b a = elim (Bool-cases (p e)) [
  | inl t ↦
      let s = append-Appended o rs e h.0 b a in
      let r = select-Selected p es (o + e.length) (append rs e) h.1 s.before s.apart in
      record {
        apart = rw (t, select) r.apart;
        covered = λ x.
            rw (t, select)
              (rw (t, keep)
                (r.covered x
                  ∙ ap (λ y. covers x (map range_of (keep p es)) || y) (s.covered x)
                  ∙ or_swap (covers x (map range_of (keep p es))) (inside x (range_of e))
                      (covers x rs)));
      }
  | inr t ↦
      let r = select-Selected p es (o + e.length) rs h.1 (Before-later o e.length rs b) a in
      record {
        apart = rw (t, select) r.apart;
        covered = λ x. rw (t, select) (rw (t, keep) (r.covered x));
      }
]

-- Of a contiguous index, LookupSeekRange with a pruner selects ranges that cover exactly the bytes of
-- the entries that the pruner does not leave out, and between two of the ranges there is a gap.
pub lookup_seek_range-covers :
    {V : Type 0} (pruner : Entry V → Bool) (o : ℕ) (index : List (Entry V))
    → Contiguous o index
    → Apart (lookup_seek_range (some pruner) index)
      × ((x : ℕ)
          → covers x (lookup_seek_range (some pruner) index)
            ≡ covers x (map range_of (keep (λ e. not (pruner e)) index)))
unfolding lookup_seek_range
lookup_seek_range-covers pruner o index h =
    let r = select-Selected (λ e. not (pruner e)) index o [] h tt tt in
    (r.apart, λ x. r.covered x ∙ or_false _)

-- One of the bits is set.
abbrev pub any : List Bool → Bool
any [] = false
any (b ∷ bs) = b || any bs

any_set_lem : (b : List Bool) (off n : ℕ) → any_set b off n ≡ any (take n (drop off b))
unfolding any_set
any_set_lem [] off n = sym (ap (λ l. any (take n l)) (drop_nil off) ∙ ap any (take_nil n))
any_set_lem (b ∷ bs) zero zero = refl
any_set_lem (b ∷ bs) zero (suc n) = ap (λ y. b || y) (any_set_lem bs zero n)
any_set_lem (b ∷ bs) (suc off) n = any_set_lem bs off n

-- Of a contiguous index, Filter selects ranges that cover exactly the bytes of the entries for which a
-- bit is set among those of their values, and between two of the ranges there is a gap.
pub filter-covers :
    {V : Type 0} (b : List Bool) (o : ℕ) (index : List (Entry V))
    → Contiguous o index
    → Apart (filter index b)
      × ((x : ℕ)
          → covers x (filter index b)
            ≡ covers x (map range_of (keep (λ e. any (take e.val_cnt (drop e.val_off b))) index)))
unfolding filter
filter-covers b o index h =
    let r = select-Selected (λ e. any_set b e.val_off e.val_cnt) index o [] h tt tt in
    (
      r.apart,
      λ x.
          r.covered x
          ∙ or_false _
          ∙ ap (λ es. covers x (map range_of es))
              (keep_agree _ _ (λ e. any_set_lem b e.val_off e.val_cnt) index),
    )

select_none :
    {V : Type 0} (p : Entry V → Bool) (es : List (Entry V)) (rs : Ranges)
    → All (λ e. p e ≡ false) es
    → select p rs es ≡ rs
unfolding select
select_none p [] rs h = refl
select_none p (e ∷ es) rs h = rw (h.0, select) (select_none p es rs h.1)

negated :
    {V : Type 0} (p : Entry V → Bool) (es : List (Entry V))
    → All (λ e. p e ≡ true) es
    → All (λ e. not (p e) ≡ false) es
negated p [] h = tt
negated p (e ∷ es) h = (ap not h.0, negated p es h.1)

-- When a pruner leaves out every entry of an index, the reader that is given the selected ranges reads
-- the whole object.
pub read_ranges-lookup_seek_range :
    {V : Type 0} (pruner : Entry V → Bool) (index : List (Entry V)) (size : ℕ)
    → All (λ e. pruner e ≡ true) index
    → read_ranges size (lookup_seek_range (some pruner) index)
      ≡ (record { offset = 0; length = size } ∷ [])
unfolding read_ranges lookup_seek_range
read_ranges-lookup_seek_range pruner index size h =
    ap (read_ranges size) (select_none (λ e. not (pruner e)) index [] (negated pruner index h))
