-- ===== src/Zcode/Bytes/RoundTrip.antt =====
-- Reading what was appended.
use super.Prelude.{
  ℕ, zero, suc, ◌+◌, ◌-◌, ◌/◌, ◌^◌, ◌≤◌, ◌<◌, ◌≡◌, refl, sym, ◌∙◌, ap, ap₂, subst, Option, true,
  false, none, some, inl, inr, List, [], ◌∷◌, ◌++◌, append_assoc, append-nil, arith,
}
use super.Prelude.{nat_eq, ◌==◌, leb, length, length-append, All, Bool-cases}
use super.Prelude.Slice.{take, drop, take-append_short, drop-append_short}
use super.Types.{Bytes, content}
use super.Zcode.Uvarint.{append_uvarint, uvarint, uvarint_bytes, uvarint-append}
use super.Zcode.Bytes.{
  decode_tag_length, next_tag_and_body, to_tag, append, size_loop, size_of_uvarint, next, value_end,
  iterate,
}

size_loop_lem : (fuel x : ℕ) → size_loop fuel x ≡ length (uvarint_bytes fuel x)
unfolding size_loop uvarint_bytes
size_loop_lem zero x = refl
size_loop_lem (suc fuel) x = elim (Bool-cases (leb 128 x)) [
  | inl t ↦ rw (t, size_loop, uvarint_bytes) (ap suc (size_loop_lem fuel (x / 128)))
  | inr t ↦ rw (t, size_loop, uvarint_bytes) refl
]

pub size_of_uvarint_lem : (x : ℕ) → size_of_uvarint x ≡ length (append_uvarint [] x)
unfolding size_of_uvarint append_uvarint
size_of_uvarint_lem x = size_loop_lem 9 x

drop_tag : (t : List ℕ) (xs : List ℕ) → drop (length t) (t ++ xs) ≡ xs
drop_tag t xs = drop-append_short (length t) 0 t xs (omega arith)

take_all : (xs ys : List ℕ) → take (length xs) (xs ++ ys) ≡ xs
take_all xs ys = take-append_short (length xs) 0 xs ys (omega arith) ∙ append-nil xs

-- A value whose length is an int of 64 bits.
abbrev pub Fits : Bytes → Type 0
Fits v = length (content v) + 1 < 2 ^ 64

next_null : (i : List ℕ) (n : ℕ) → uvarint i ≡ some (0, n) → next i ≡ some (none, drop n i)
unfolding next
next_null i n e = rw (e, next) refl

next_value :
    (tag body rest : List ℕ)
    → uvarint (tag ++ (body ++ rest)) ≡ some (to_tag (length body), length tag)
    → next (tag ++ (body ++ rest)) ≡ some (some body, rest)
unfolding next value_end
next_value tag body rest e =
    let n = length tag in
    let l = length body in
    let z : (l + 1 == 0) ≡ false = ground arith in
    let m : n + (l + 1 - 1) ≡ n + l = omega arith in
    let fits : leb (n + l) (length (tag ++ (body ++ rest))) ≡ true =
      let a = length-append tag (body ++ rest) in
      let b = length-append body rest in
      let c : n + l ≤ length (tag ++ (body ++ rest)) = omega (arith, a, b) in ground arith in
    let t : drop n (take (n + l) (tag ++ (body ++ rest))) ≡ body =
      ap (drop n) (
        take-append_short (n + l) l tag (body ++ rest) refl
        ∙ ap (λ x. tag ++ x) (take_all body rest))
      ∙ drop_tag tag body in
    let d : drop (n + l) (tag ++ (body ++ rest)) ≡ rest =
      drop-append_short (n + l) l tag (body ++ rest) refl ∙ drop_tag body rest in
    rw (e, next) (rw (z, next, value_end) (rw m (rw fits (ap₂ (λ x y. some (some x, y)) t d))))

pub next-append : (v : Bytes) (rest : List ℕ) → Fits v → next (append [] v ++ rest) ≡ some (v, rest)
unfolding append
next-append none rest h =
    next_null (append_uvarint [] 0 ++ rest) _ (uvarint-append 0 rest (omega arith))
    ∙ ap (λ l. some (none, l)) (drop_tag (append_uvarint [] 0) rest)
next-append (some val) rest h =
    let tag = append_uvarint [] (to_tag (length val)) in
    let e : (tag ++ val) ++ rest ≡ tag ++ (val ++ rest) = append_assoc tag val rest in
    rw e (next_value tag val rest (uvarint-append (to_tag (length val)) (val ++ rest) h))

-- Calls of Append, one for each value.
abbrev pub append_values : List ℕ → List Bytes → List ℕ
append_values dst [] = dst
append_values dst (v ∷ vs) = append_values (append dst v) vs

pub append_lem : (dst : List ℕ) (v : Bytes) → append dst v ≡ dst ++ append [] v
unfolding append append_uvarint
append_lem dst none = refl
append_lem dst (some val) = append_assoc dst (uvarint_bytes 9 (to_tag (length val))) val

append_values_lem :
    (vs : List Bytes) (dst : List ℕ) → append_values dst vs ≡ dst ++ append_values [] vs
append_values_lem [] dst = sym (append-nil dst)
append_values_lem (v ∷ vs) dst =
    append_values_lem vs (append dst v)
    ∙ ap (λ d. d ++ append_values [] vs) (append_lem dst v)
    ∙ append_assoc dst (append [] v) (append_values [] vs)
    ∙ ap (λ r. dst ++ r) (sym (append_values_lem vs (append [] v)))

iterate_step :
    (fuel : ℕ) (i rest : List ℕ) (v : Bytes) (vs : List Bytes)
    → next i ≡ some (v, rest)
    → iterate fuel rest ≡ some vs
    → iterate (suc fuel) i ≡ some (v ∷ vs)
unfolding iterate next uvarint
iterate_step fuel [] rest v vs e f = cc
iterate_step fuel (b ∷ bs) rest v vs e f = rw (e, iterate) (rw (f, iterate) refl)

-- An Iter over what calls of Append wrote, from the empty buffer, gives back each value in order, null
-- and empty ones apart, and then is done; the fuel for the loop is the number of values, and a value
-- is shorter than 2 ^ 64 - 1 bytes.
pub iterate-append :
    (vs : List Bytes) → All Fits vs → iterate (length vs) (append_values [] vs) ≡ some vs
unfolding iterate
iterate-append [] h = refl
iterate-append (v ∷ vs) h =
    iterate_step (length vs) (append_values (append [] v) vs) (append_values [] vs) v vs
      (ap next (append_values_lem vs (append [] v)) ∙ next-append v (append_values [] vs) h.0)
      (iterate-append vs h.1)

-- What DecodeTagLength and NextTagAndBody read of a tag with a value behind it.
tag_of_null :
    (i : List ℕ) (n : ℕ)
    → uvarint i ≡ some (0, n)
    → leb n (length i) ≡ true
    → (decode_tag_length i ≡ some n) × (next_tag_and_body i ≡ some (take n i, drop n i))
unfolding decode_tag_length next_tag_and_body value_end
tag_of_null i n e h = (rw (e, decode_tag_length) refl, rw (e, next_tag_and_body) (rw h refl))

tag_of_value :
    (i : List ℕ) (l n : ℕ)
    → uvarint i ≡ some (to_tag l, n)
    → leb (n + l) (length i) ≡ true
    → (decode_tag_length i ≡ some (n + l))
      × (next_tag_and_body i ≡ some (take (n + l) i, drop (n + l) i))
unfolding decode_tag_length next_tag_and_body value_end
tag_of_value i l n e h =
    let z : (l + 1 == 0) ≡ false = ground arith in
    let m : n + (l + 1 - 1) ≡ n + l = omega arith in
    let k : l + 1 + n - 1 ≡ n + l = omega arith in
    (
      rw (e, decode_tag_length) (rw z (ap some k)),
      rw (e, next_tag_and_body) (rw (z, value_end) (rw m (rw h refl))),
    )

leb_prefix : (xs ys : List ℕ) → leb (length xs) (length (xs ++ ys)) ≡ true
leb_prefix xs ys =
    let h = length-append xs ys in
    let k : length xs ≤ length (xs ++ ys) = omega arith in ground arith

-- Of a value that was appended, with anything behind it, DecodeTagLength gives the length of its whole
-- encoding and NextTagAndBody the encoding itself; a value is shorter than 2 ^ 64 - 1 bytes.
pub decode_tag_length-append :
    (v : Bytes) (rest : List ℕ)
    → Fits v
    → (decode_tag_length (append [] v ++ rest) ≡ some (length (append [] v)))
      × (next_tag_and_body (append [] v ++ rest) ≡ some (append [] v, rest))
unfolding append
decode_tag_length-append none rest h =
    let t = append_uvarint [] 0 in
    let (a, b) =
      tag_of_null (t ++ rest) (length t) (uvarint-append 0 rest (omega arith))
        (leb_prefix t rest) in
    (a, b ∙ ap₂ (λ x y. some (x, y)) (take_all t rest) (drop_tag t rest))
decode_tag_length-append (some val) rest h =
    let tag = append_uvarint [] (to_tag (length val)) in
    let l = length val in
    let w : length (tag ++ val) ≡ length tag + l = length-append tag val in
    let e : (tag ++ val) ++ rest ≡ tag ++ (val ++ rest) = append_assoc tag val rest in
    let u : uvarint ((tag ++ val) ++ rest) ≡ some (to_tag l, length tag) =
      ap uvarint e ∙ uvarint-append (to_tag l) (val ++ rest) h in
    let p : leb (length tag + l) (length ((tag ++ val) ++ rest)) ≡ true =
      subst (λ n. leb n (length ((tag ++ val) ++ rest)) ≡ true) w (leb_prefix (tag ++ val) rest) in
    let (a, b) = tag_of_value ((tag ++ val) ++ rest) l (length tag) u p in
    (
      a ∙ ap some (sym w),
      b
          ∙ subst
              (λ n.
                ◌≡◌ {A = Option (List ℕ × List ℕ)}
                  (some (take n ((tag ++ val) ++ rest), drop n ((tag ++ val) ++ rest)))
                  (some (tag ++ val, rest)))
              w
              (ap₂ (λ x y. some (x, y)) (take_all (tag ++ val) rest) (drop_tag (tag ++ val) rest)),
    )
