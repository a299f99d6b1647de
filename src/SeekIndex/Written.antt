-- ===== src/SeekIndex/Written.antt =====
-- What the writer of a seek index writes.
use super.Prelude.{ℕ, ◌+◌, ◌^◌, ◌≤◌, ◌<◌, ◌≡◌, refl, List, [], ◌∷◌, ◌++◌, arith}
use super.SeekIndex.{Entry, Writer, new_writer, minus64, write}
use super.SeekIndex.Cover.{Contiguous}

module _ {V : Type 0} (start size : Entry V → ℕ) where
  -- The entries follow one another from `o` to `z`.
  abbrev pub Chain : ℕ → ℕ → List (Entry V) → Type 0
  Chain o z [] = o ≡ z
  Chain o z (e ∷ es) = (start e ≡ o) × Chain (o + size e) z es

  Chain-append :
      (o z y : ℕ) (es : List (Entry V)) (e : Entry V)
      → Chain o z es
      → start e ≡ z
      → z + size e ≡ y
      → Chain o y (es ++ (e ∷ []))
  Chain-append o z y [] e h s k = (omega arith, omega arith)
  Chain-append o z y (f ∷ es) e h s k = (h.0, Chain-append (o + size f) z y es e h.1 s k)

-- The bytes of the entries follow one another from 0 to the writer's offset, and their values from 0 to
-- the writer's count.
pub record IsIndex {V : Type 0} (w : Writer V) : Type 0 where
  pub bytes : Chain (λ e. e.offset) (λ e. e.length) 0 w.offset w.entries
  pub values : Chain (λ e. e.val_off) (λ e. e.val_cnt) 0 w.valoff w.entries

minus64_lem : (a b : ℕ) → b ≤ a → a < 2 ^ 64 → b + minus64 a b ≡ a
minus64_lem a b h k = omega arith

-- Whatever is written at positions that do not go back, the entries of the index stay chained: each
-- begins where the one before it ends, in bytes and in values, the last ends at the last position.
pub write-IsIndex :
    {V : Type 0} (min max : V) (valoff offset : ℕ) (w : Writer V)
    → w.valoff ≤ valoff
    → valoff < 2 ^ 64
    → w.offset ≤ offset
    → offset < 2 ^ 64
    → IsIndex w
    → IsIndex (write min max valoff offset w)
unfolding write
write-IsIndex min max valoff offset w h i j k x = record {
  bytes =
      Chain-append _ _ 0 w.offset offset w.entries _ x.bytes refl (minus64_lem offset w.offset j k);
  values =
      Chain-append _ _ 0 w.valoff valoff w.entries _ x.values refl
        (minus64_lem valoff w.valoff h i);
}

pub new_writer-IsIndex : {V : Type 0} → IsIndex {V = V} new_writer
new_writer-IsIndex = record { bytes = refl; values = refl }

Chain-Contiguous :
    {V : Type 0} (z : ℕ) (es : List (Entry V)) (o : ℕ)
    → Chain (λ e. e.offset) (λ e. e.length) o z es
    → Contiguous o es
Chain-Contiguous z [] o h = tt
Chain-Contiguous z (e ∷ es) o h = (h.0, Chain-Contiguous z es (o + e.length) h.1)

-- The index that a writer has is contiguous, as the lookups want it.
pub IsIndex-Contiguous : {V : Type 0} (w : Writer V) → IsIndex w → Contiguous 0 w.entries
IsIndex-Contiguous w x = Chain-Contiguous w.offset w.entries 0 x.bytes
