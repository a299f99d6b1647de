-- ===== src/DataWriter/Statistics.antt =====
-- What an object and its seek index say of the values that were written.
use super.Prelude.{
  ℕ, suc, ◌+◌, ◌%◌, ◌^◌, ◌≤◌, ◌<◌, ◌≡◌, refl, sym, ◌∙◌, subst, Bool, none, inl, inr, List, [], ◌∷◌,
  arith,
}
use super.Prelude.{ltb, length, Bool-cases, if◌then◌else◌}
use super.Prelude.Result.{ok, ◌>>=◌, bind-eq-ok, ok-injective}
use super.SeekIndex as Index
use super.SeekIndex.Written.{IsIndex, new_writer-IsIndex}
use super.DataWriter.{
  Sink, Object, Writer, seek_stride, new_writer, note_key, write_index, write_with_key, close,
  write_all,
}
use super.DataWriter.Flush.{
  Counts, last_key, or_else-some, Behind, flush, flush-Behind, moved-Behind,
}

module _ {E S V : Type 0} (below : Sink E S V) (null : V) (key_size : V → ℕ) (stride : ℕ)
    (descending : Bool) where
  write_index-ok :
      (n : ℕ) (lo hi key : V) (w w' : Writer S V)
      → n < 2 ^ 64
      → Counts below
      → Behind below null key_size stride descending n lo hi
          (note_key below null key_size stride descending key w)
      → write_index below null key_size stride descending key w ≡ ok w'
      → Behind below null key_size stride descending n lo hi w'
  unfolding write_index
  write_index-ok n lo hi key w w' l c h e =
      let noted = note_key below null key_size stride descending key w in
      elim (Bool-cases (ltb noted.trigger (seek_stride stride))) [
        | inl t ↦
            let early : write_index below null key_size stride descending key w ≡ ok noted =
              rw (t, write_index) refl in
            subst (Behind below null key_size stride descending n lo hi)
              (ok-injective (sym early ∙ e)) h
        | inr t ↦
            let late : write_index below null key_size stride descending key w ≡ (
                below.end_stream noted.sink >>= λ s.
                ok (flush below null key_size stride descending (record noted { sink = s }))) =
              rw (t, write_index) refl in
            let (s, f, g) = bind-eq-ok (below.end_stream noted.sink) _ (sym late ∙ e) in
            subst (Behind below null key_size stride descending n lo hi) (ok-injective g)
              (flush-Behind below null key_size stride descending n lo hi
                (record noted { sink = s }) l (c.bounded s)
                (moved-Behind below null key_size stride descending n lo hi noted s
                  (c.end_on noted.sink s f) h)).0
      ]

  -- What a writer that holds `n` values is told of one more.
  noted-Behind :
      (n : ℕ) (lo hi key : V) (w : Writer S V) (s : S)
      → suc n < 2 ^ 64
      → below.position w.sink ≤ below.position s
      → Behind below null key_size stride descending n lo hi w
      → Behind below null key_size stride descending (suc n) lo key (
          note_key below null key_size stride descending key
            (record w { count = (w.count + 1) % 2 ^ 64; sink = s; max = key }))
  unfolding note_key
  noted-Behind n lo hi key w s l p h =
      let v = h.values_in in
      let b = h.bytes_in in
      let c = h.counted in
      let g = h.begun in
      record {
        counted = omega arith;
        low = rw g h.low;
        high = refl;
        begun = refl;
        index = h.index;
        values_in = omega arith;
        bytes_in = omega arith;
        all_in = λ e. absurd (or_else-some w.seek_min key e);
      }

  write_all-ok :
      (kvs : List (V × V)) (n : ℕ) (lo hi : V) (w w' : Writer S V)
      → n + length kvs < 2 ^ 64
      → Counts below
      → Behind below null key_size stride descending n lo hi w
      → write_all below null key_size stride descending kvs w ≡ ok w'
      → Behind below null key_size stride descending (n + length kvs) lo (last_key hi kvs) w'
  unfolding write_all write_with_key
  write_all-ok [] n lo hi w w' l c h e =
      let q : n ≡ n + 0 = omega arith in
      subst (λ k. Behind below null key_size stride descending k lo hi w') q
        (subst (Behind below null key_size stride descending n lo hi) (ok-injective e) h)
  write_all-ok (kv ∷ kvs) n lo hi w w' l c h e =
      let (w1, f, g) =
        bind-eq-ok (write_with_key below null key_size stride descending kv.0 kv.1 w) _ e in
      let (s, p, q) = bind-eq-ok (below.write kv.1 w.sink) _ f in
      let x : Writer S V = record w { count = (w.count + 1) % 2 ^ 64; sink = s; max = kv.0 } in
      let b =
        write_index-ok (suc n) lo kv.0 kv.0 x w1 (omega arith) c
          (noted-Behind n lo hi kv.0 w s (omega arith) (c.write_on kv.1 w.sink s p) h) q in
      let m : suc n + length kvs ≡ n + suc (length kvs) = omega arith in
      subst (λ k. Behind below null key_size stride descending k lo (last_key kv.0 kvs) w') m
        (write_all-ok kvs (suc n) lo kv.0 w1 w' (omega arith) c b g)

  -- The first value.
  started-Behind :
      (k : V) (s t : S)
      → Behind below null key_size stride descending 1 k k (
          note_key below null key_size stride descending k
            (record (new_writer below null key_size stride descending s) {
              count = (0 + 1) % 2 ^ 64;
              sink = t;
              max = k;
            }))
  unfolding note_key
  started-Behind k s t = record {
    counted = refl;
    low = refl;
    high = refl;
    begun = refl;
    index = new_writer-IsIndex;
    values_in = omega arith;
    bytes_in = omega arith;
    all_in = λ e. absurd (or_else-some none k e);
  }

  -- What a closed writer says of values whose keys run from `lo` to `hi`.
  pub record Closed (n : ℕ) (lo hi : V) (o : Object V) (ix : Index.Writer V) : Type 0 where
    pub counted : o.count ≡ n
    pub low : o.min ≡ (if descending then hi else lo)
    pub high : o.max ≡ (if descending then lo else hi)
    pub index : IsIndex ix
    pub values : ix.valoff ≡ n
    pub bytes : ix.offset ≤ o.size

  closing-Closed :
      (n : ℕ) (lo hi : V) (s : S) (done : Writer S V)
      → Behind below null key_size stride descending n lo hi done
      → done.seek_min ≡ none
      → done.sink ≡ s
      → Closed n lo hi
          (if descending
            then record {
              min = done.max;
              max = done.min;
              count = done.count;
              size = below.position s;
            }
            else record {
              min = done.min;
              max = done.max;
              count = done.count;
              size = below.position s;
            })
          done.index
  closing-Closed n lo hi s done h i j =
      let b : done.index.offset ≤ below.position s =
        subst (λ t. done.index.offset ≤ below.position t) j h.bytes_in in
      elim (Bool-cases descending) [
        | inl t ↦ record {
          counted = rw t h.counted;
          low = rw t h.high;
          high = rw t h.low;
          index = h.index;
          values = h.all_in i;
          bytes = rw t b;
        }
        | inr t ↦ record {
          counted = rw t h.counted;
          low = rw t h.low;
          high = rw t h.high;
          index = h.index;
          values = h.all_in i;
          bytes = rw t b;
        }
      ]

  close-ok :
      (n : ℕ) (lo hi : V) (w : Writer S V) (o : Object V) (ix : Index.Writer V)
      → n < 2 ^ 64
      → Counts below
      → Behind below null key_size stride descending n lo hi w
      → close below null key_size stride descending w ≡ ok (o, ix)
      → Closed n lo hi o ix
  unfolding close
  close-ok n lo hi w o ix l c h e =
      let (s, f, g) = bind-eq-ok (below.close w.sink) _ e in
      let x : Writer S V = record w { sink = s } in
      let (b, i, j) = flush-Behind below null key_size stride descending n lo hi x l (c.bounded s) (
        moved-Behind below null key_size stride descending n lo hi w s (c.close_on w.sink s f) h) in
      subst (λ r. Closed n lo hi r.0 r.1) (ok-injective g)
        (closing-Closed n lo hi s (flush below null key_size stride descending x) b i j)

  -- A writer that wrote some values and closed, over a file whose position only grows, leaves an object
  -- with their number and with the keys of the first and of the last of them as its bounds, the other
  -- way round where the order descends, and a seek index whose entries are chained in bytes and in
  -- values from 0 on, to the last value and to no more than the object's size.
  pub close-Closed :
      (k v : V) (kvs : List (V × V)) (s : S) (w : Writer S V) (o : Object V) (ix : Index.Writer V)
      → suc (length kvs) < 2 ^ 64
      → Counts below
      → write_all below null key_size stride descending
          ((k, v) ∷ kvs)
          (new_writer below null key_size stride descending s)
        ≡ ok w
      → close below null key_size stride descending w ≡ ok (o, ix)
      → Closed (suc (length kvs)) k (last_key k kvs) o ix
  unfolding write_all write_with_key
  close-Closed k v kvs s w o ix l c e f =
      let new = new_writer below null key_size stride descending s in
      let (w1, g, i) =
        bind-eq-ok (write_with_key below null key_size stride descending k v new) _ e in
      let (t, p, q) = bind-eq-ok (below.write v s) _ g in
      let x : Writer S V = record new { count = (0 + 1) % 2 ^ 64; sink = t; max = k } in
      let b = write_index-ok 1 k k k x w1 (omega arith) c (started-Behind k s t) q in
      let n : 1 + length kvs ≡ suc (length kvs) = omega arith in
      let z =
        subst (λ m. Behind below null key_size stride descending m k (last_key k kvs) w) n
          (write_all-ok kvs 1 k k w1 w (omega arith) c b i) in
      close-ok (suc (length kvs)) k (last_key k kvs) w o ix l c z f
