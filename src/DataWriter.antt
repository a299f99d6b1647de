-- ===== src/DataWriter.antt =====
-- The writer of a data object: lake/data/writer.go.
pub mod Flush
pub mod Statistics
pub mod Examples
use super.Prelude.{ℕ, ◌+◌, ◌*◌, ◌%◌, ◌^◌, Bool, true, false, Option, none, some, List, [], ◌∷◌}
use super.Prelude.{nat_eq, ◌==◌, ltb, or_else, if◌then◌else◌}
use super.Prelude.Result.{Result, ok, err, ◌>>=◌}
use super.SeekIndex as Index

-- What the writer needs of the writer of the file below it, a bsupio.Writer, with the state `S`.
pub record Sink (E S V : Type 0) : Type 0 where
  pub write : V → S → Result E S
  pub end_stream : S → Result E S
  pub close : S → Result E S
  pub position : S → ℕ

-- The struct Object, less its identifier.
pub record Object (V : Type 0) : Type 0 where
  pub min : V
  pub max : V
  pub count : ℕ
  pub size : ℕ

-- The struct Writer; the object's count and size are set at the end only.
pub record Writer (S V : Type 0) : Type 0 where
  pub min : V
  pub max : V
  pub count : ℕ
  pub sink : S
  pub index : Index.Writer V
  pub trigger : ℕ
  pub first : Bool
  pub seek_min : Option V

-- The stride that NewWriter sets for the one it is given; it is DefaultSeekStride for 0.
unfoldable pub seek_stride : ℕ → ℕ
seek_stride n = if n == 0 then 64 * 1024 else n

-- `stride` is the one that NewWriter is given. `null` is the zero Value, `key_size` the length of a key's bytes, and `descending` the order of the
-- sort key. The seek index is written without an error, and a writer that failed is given up.
module _ {E S V : Type 0} (below : Sink E S V) (null : V) (key_size : V → ℕ) (stride : ℕ)
    (descending : Bool) where
  -- The function NewWriter.
  abbrev pub new_writer : S → Writer S V
  new_writer s = record {
    min = null;
    max = null;
    count = 0;
    sink = s;
    index = Index.new_writer;
    trigger = 0;
    first = true;
    seek_min = none;
  }

  -- The method flushSeekIndex.
  unfoldable pub flush_seek_index : Writer S V → Writer S V
  unfolding Index.write
  flush_seek_index w = elim w.seek_min [
    | none ↦ w
    | some m ↦
        let pos = below.position w.sink in
        let index =
          if descending
          then Index.write w.max m w.count pos w.index
          else Index.write m w.max w.count pos w.index in
        record w { trigger = 0; seek_min = none; index = index }
  ]

  -- What writeIndex notes of a key.
  unfoldable pub note_key : V → Writer S V → Writer S V
  note_key key w = record w {
    trigger = w.trigger + key_size key;
    min = if w.first then key else w.min;
    first = false;
    seek_min = or_else w.seek_min (some key);
  }

  -- The method writeIndex.
  unfoldable pub write_index : V → Writer S V → Result E (Writer S V)
  unfolding note_key flush_seek_index seek_stride
  write_index key w =
      let noted = note_key key w in
      if ltb noted.trigger (seek_stride stride)
      then ok noted
      else (below.end_stream noted.sink >>= λ s. ok (flush_seek_index (record noted { sink = s })))

  -- The method WriteWithKey.
  unfoldable pub write_with_key : V → V → Writer S V → Result E (Writer S V)
  unfolding write_index
  write_with_key key val w = below.write val w.sink >>= λ s.
      write_index key (record w { count = (w.count + 1) % 2 ^ 64; sink = s; max = key })

  -- The method Close: the object and its index.
  unfoldable pub close : Writer S V → Result E (Object V × Index.Writer V)
  unfolding flush_seek_index
  close w = below.close w.sink >>= λ s.
      let done = flush_seek_index (record w { sink = s }) in
      let size = below.position s in
      let object =
        if descending
        then record { min = done.max; max = done.min; count = done.count; size = size }
        else record { min = done.min; max = done.max; count = done.count; size = size } in
      ok (object, done.index)

  -- Values with their keys, written one after the other.
  unfoldable pub write_all : List (V × V) → Writer S V → Result E (Writer S V)
  unfolding write_with_key
  write_all [] w = ok w
  write_all (kv ∷ kvs) w = write_with_key kv.0 kv.1 w >>= write_all kvs
