-- ===== src/DataWriter/Flush.antt =====
-- What a flush of the seek index leaves in order.
use super.Prelude.{
  ℕ, ◌^◌, ◌≤◌, ◌<◌, ◌≡◌, refl, sym, ◌∙◌, ap, subst, Bool, false, Option, none, some, inl, inr, List,
  [], ◌∷◌, arith,
}
use super.Prelude.{Bool-cases, Option-cases, or_else}
use super.Prelude.Result.{ok}
use super.SeekIndex as Index
use super.SeekIndex.Written.{IsIndex, write-IsIndex}
use super.DataWriter.{Sink, Writer, flush_seek_index}

-- The position of the file below is a count of bytes that does not go back.
pub record Counts {E S V : Type 0} (below : Sink E S V) : Type 0 where
  pub bounded : (s : S) → below.position s < 2 ^ 63
  pub write_on : (v : V) (s t : S) → below.write v s ≡ ok t → below.position s ≤ below.position t
  pub end_on : (s t : S) → below.end_stream s ≡ ok t → below.position s ≤ below.position t
  pub close_on : (s t : S) → below.close s ≡ ok t → below.position s ≤ below.position t

-- The key of the last value, or `k`.
abbrev pub last_key : {V : Type 0} → V → List (V × V) → V
last_key k [] = k
last_key k (kv ∷ kvs) = last_key kv.0 kvs

pub or_else-some : {V : Type 0} (o : Option V) (k : V) → ¬ (or_else o (some k) ≡ none)
or_else-some none k e = cc
or_else-some (some m) k e = cc

module _ {E S V : Type 0} (below : Sink E S V) (null : V) (key_size : V → ℕ) (stride : ℕ)
    (descending : Bool) where
  -- The state of a writer behind `n` values, the first and the last with the keys `lo` and `hi`.
  pub record Behind (n : ℕ) (lo hi : V) (w : Writer S V) : Type 0 where
    pub counted : w.count ≡ n
    pub low : w.min ≡ lo
    pub high : w.max ≡ hi
    pub begun : w.first ≡ false
    pub index : IsIndex w.index
    pub values_in : w.index.valoff ≤ n
    pub bytes_in : w.index.offset ≤ below.position w.sink
    pub all_in : w.seek_min ≡ none → w.index.valoff ≡ n

  abbrev pub flush : Writer S V → Writer S V
  flush = flush_seek_index below null key_size stride descending

  flush-none : (w : Writer S V) → w.seek_min ≡ none → flush w ≡ w
  unfolding flush_seek_index
  flush-none w e = rw (e, flush_seek_index) (ap (λ o. record w { seek_min = o }) e)

  -- The writer behind a flush that writes an entry between `a` and `b`.
  abbrev flushed : V → V → Writer S V → Writer S V
  flushed a b w = record w {
    trigger = 0;
    seek_min = none;
    index = Index.write a b w.count (below.position w.sink) w.index;
  }

  flush-some :
      (w : Writer S V) (m : V) → w.seek_min ≡ some m → (a : V) × (b : V) × (flush w ≡ flushed a b w)
  unfolding flush_seek_index
  flush-some w m e = elim (Bool-cases descending) [
    | inl t ↦ (w.max, m, rw (e, flush_seek_index) (rw t refl))
    | inr t ↦ (m, w.max, rw (e, flush_seek_index) (rw t refl))
  ]

  flushed-Behind :
      (n : ℕ) (lo hi a b : V) (w : Writer S V)
      → n < 2 ^ 64
      → below.position w.sink < 2 ^ 63
      → Behind n lo hi w
      → Behind n lo hi (flushed a b w)
  unfolding Index.write
  flushed-Behind n lo hi a b w l p h =
      let c = h.counted in
      let v = h.values_in in
      record {
        counted = c;
        low = h.low;
        high = h.high;
        begun = h.begun;
        index =
            write-IsIndex a b w.count (below.position w.sink) w.index (omega arith) (omega arith)
              h.bytes_in (omega arith) h.index;
        values_in = omega arith;
        bytes_in = omega arith;
        all_in = λ e. c;
      }

  -- A flush leaves no value outside the index.
  pub flush-Behind :
      (n : ℕ) (lo hi : V) (w : Writer S V)
      → n < 2 ^ 64
      → below.position w.sink < 2 ^ 63
      → Behind n lo hi w
      → Behind n lo hi (flush w) × ((flush w).seek_min ≡ none) × ((flush w).sink ≡ w.sink)
  flush-Behind n lo hi w l p h = elim (Option-cases w.seek_min) [
    | inl e ↦
        let f = flush-none w e in
        (subst (Behind n lo hi) (sym f) h, ap (λ x. x.seek_min) f ∙ e, ap (λ x. x.sink) f)
    | inr (m, e) ↦
        let (a, b, f) = flush-some w m e in
        (
          subst (Behind n lo hi) (sym f) (flushed-Behind n lo hi a b w l p h),
          ap (λ x. x.seek_min) f,
          ap (λ x. x.sink) f,
        )
  ]

  pub moved-Behind :
      (n : ℕ) (lo hi : V) (w : Writer S V) (s : S)
      → below.position w.sink ≤ below.position s
      → Behind n lo hi w
      → Behind n lo hi (record w { sink = s })
  moved-Behind n lo hi w s p h = record {
    counted = h.counted;
    low = h.low;
    high = h.high;
    begun = h.begun;
    index = h.index;
    values_in = h.values_in;
    bytes_in = omega (arith, h.bytes_in);
    all_in = h.all_in;
  }
