-- ===== src/DataWriter/Examples.antt =====
-- A run of the model of the data writer.
use super.Prelude.{
  ℕ, ◌+◌, ◌≤◌, ◌<◌, ◌≡◌, refl, sym, ◌∙◌, subst, true, inl, inr, List, [], ◌∷◌, arith,
}
use super.Prelude.{ltb, Bool-cases, if◌then◌else◌}
use super.Prelude.Result.{Result, ok, err, ok_or, ok-injective}
use super.SeekIndex as Index
use super.DataWriter.{Sink, Object, Writer, new_writer, close, write_all}
use super.DataWriter.Flush.{Counts}
use super.DataWriter.Statistics.{Closed, close-Closed}

-- A file of ten bytes for each value, and five at the end of a stream, up to a size.
abbrev grown : ℕ → ℕ → Result ℕ ℕ
grown n s = if ltb (s + n) 1000 then ok (s + n) else err 0

abbrev position_of : ℕ → ℕ
position_of s = if ltb s 1000 then s else 1000

abbrev file : Sink ℕ ℕ ℕ
file = record {
  write = λ v s. grown 10 s;
  end_stream = grown 5;
  close = grown 5;
  position = position_of;
}

grown-moves : (n s t : ℕ) → grown n s ≡ ok t → position_of s ≤ position_of t
grown-moves n s t e = elim (Bool-cases (ltb (s + n) 1000)) [
  | inl b ↦
      let g : s + n ≡ t = ok-injective (sym (rw b refl) ∙ e) in
      let h : s + n < 1000 = ground arith in
      subst (λ z. position_of s ≤ position_of z) g (ground arith)
  | inr b ↦ absurd (cc (b, e))
]

file-Counts : Counts file
file-Counts = record {
  bounded = λ s. ground arith;
  write_on = λ v s t e. grown-moves 10 s t e;
  end_on = λ s t e. grown-moves 5 s t e;
  close_on = λ s t e. grown-moves 5 s t e;
}

abbrev values : List (ℕ × ℕ)
values = (7, 70) ∷ (6, 60) ∷ []

-- The writer behind three values, and what closing it returns.
abbrev written : Result ℕ (Writer ℕ ℕ)
written = write_all file 0 (λ k. 1) 2 true ((8, 80) ∷ values) (new_writer file 0 (λ k. 1) 2 true 0)

abbrev behind : Writer ℕ ℕ
behind = ok_or written (new_writer file 0 (λ k. 1) 2 true 0)

abbrev closed : Object ℕ × Index.Writer ℕ
closed =
    ok_or (close file 0 (λ k. 1) 2 true behind)
      (record { min = 0; max = 0; count = 0; size = 0 }, Index.new_writer)

close-Closed_example : Closed file 0 (λ k. 1) 2 true 3 8 6 closed.0 closed.1
unfolding write_all close
close-Closed_example =
    close-Closed file 0 (λ k. 1) 2 true 8 80 values 0 behind closed.0 closed.1 (omega arith)
      file-Counts refl refl
