-- ===== src/Zcode/Builder/Encoding.antt =====
-- What the builder builds of nested values.
use super.Prelude.{
  ℕ, zero, suc, ◌+◌, ◌-◌, ◌/◌, ◌≤◌, ◌<◌, ◌≡◌, refl, sym, ◌∙◌, ap, ap₂, true, false, Option, none,
  some, inl, inr, List, [], ◌∷◌, ◌++◌, append_assoc, append-nil, arith,
}
use super.Prelude.{nat_eq, ◌==◌, leb, ltb, length, length-append, Bool-cases}
use super.Prelude.Slice.{take, drop, take-append_short, drop-append_short, length-take}
use super.Types.{Bytes}
use super.Zcode.Uvarint.{append_uvarint, uvarint_bytes}
use super.Zcode.Bytes as Zcode
use super.Zcode.Bytes.RoundTrip.{size_of_uvarint_lem, append_lem}
use super.Zcode.Builder.{
  Builder, begin_container, put_uvarint, make_room, end_at, end_container, append,
}

-- A value, or a container of values.
mutual
  pub data Item : Type 0 where
    leaf : Bytes → Item
    container : Items → Item

  pub data Items : Type 0 where
    no_items : Items
    item_and : Item → Items → Items

-- The encoding as the package's comment gives it: the body of a container is the sequence of its
-- values.
unfoldable mutual
  pub encode_item : Item → List ℕ
  encode_item (leaf v) = Zcode.append [] v
  encode_item (container items) = Zcode.append [] (some (encode_items items))

  pub encode_items : Items → List ℕ
  encode_items no_items = []
  encode_items (item_and i is) = encode_item i ++ encode_items is

abbrev and_then : (Builder → Option Builder) → Option Builder → Option Builder
and_then f none = none
and_then f (some b) = f b

-- The calls of the builder that build a value.
unfoldable mutual
  pub build_item : Builder → Item → Option Builder
  build_item b (leaf v) = some (append b v)
  build_item b (container items) = and_then end_container (build_items (begin_container b) items)

  pub build_items : Builder → Items → Option Builder
  build_items b no_items = some b
  build_items b (item_and i is) = and_then (λ c. build_items c is) (build_item b i)

length-uvarint_bytes : (fuel x : ℕ) → length (uvarint_bytes fuel x) ≤ suc fuel
unfolding uvarint_bytes
length-uvarint_bytes zero x = omega arith
length-uvarint_bytes (suc fuel) x = elim (Bool-cases (leb 128 x)) [
  | inl t ↦ rw (t, uvarint_bytes) (omega (arith, length-uvarint_bytes fuel (x / 128)))
  | inr t ↦ rw (t, uvarint_bytes) (omega arith)
]

short_tag : (x : ℕ) → x < 128 → length (append_uvarint [] x) ≡ 1
unfolding uvarint_bytes append_uvarint
short_tag x h = let t : leb 128 x ≡ false = ground arith in rw (t, uvarint_bytes) refl

tag_positive : (x : ℕ) → 0 < length (append_uvarint [] x)
unfolding append_uvarint uvarint_bytes
tag_positive x = elim (Bool-cases (leb 128 x)) [
  | inl t ↦ rw (t, uvarint_bytes) (omega arith)
  | inr t ↦ rw (t, uvarint_bytes) (omega arith)
]

-- The tag has room in front of the body, once the body is moved.
tag_room : (n : ℕ) → length (append_uvarint [] (n + 1)) ≤ n + 1
unfolding append_uvarint
tag_room n = elim (Bool-cases (leb 128 (n + 1))) [
  | inl t ↦ let h : 128 ≤ n + 1 = ground arith in omega (arith, length-uvarint_bytes 9 (n + 1))
  | inr t ↦ let h : n + 1 < 128 = ground arith in omega (arith, short_tag (n + 1) h)
]

-- A buffer in which `n` bytes stand between `pre` and `body`.
record Room (pre body bytes : List ℕ) (n : ℕ) : Type 0 where
  gap : List ℕ
  size : length gap ≡ n
  layout : bytes ≡ pre ++ (gap ++ body)

make_room-Room :
    (pre body : List ℕ) (n : ℕ)
    → 0 < n
    → n ≤ length body + 1
    → Room pre body (make_room (pre ++ (0 ∷ body)) (length pre) (length pre + 1) n) n
unfolding make_room
make_room-Room pre body n p h = elim (Bool-cases (ltb 1 n)) [
  | inl t ↦ record {
    gap = take n (0 ∷ body);
    size = length-take n (0 ∷ body) (omega arith);
    layout =
        rw (t, make_room)
          (ap₂ (λ x y. x ++ y) (take-append_short (length pre + n) n pre (0 ∷ body) refl)
              (drop-append_short (length pre + 1) 1 pre (0 ∷ body) refl)
            ∙ append_assoc pre (take n (0 ∷ body)) body);
  }
  | inr t ↦
      let one : 1 ≡ n = ground arith in
      record { gap = 0 ∷ []; size = one; layout = rw (t, make_room) refl }
]

put_uvarint_lem :
    (pre gap body tag : List ℕ) (x : ℕ)
    → append_uvarint [] x ≡ tag
    → length gap ≡ length tag
    → put_uvarint (pre ++ (gap ++ body)) (length pre) x ≡ some (pre ++ (tag ++ body), length tag)
unfolding put_uvarint
put_uvarint_lem pre gap body tag x e h =
    let p = length pre in
    let n = length tag in
    let fits : leb (p + n) (length (pre ++ (gap ++ body))) ≡ true =
      let a = length-append pre (gap ++ body) in
      let b = length-append gap body in
      let c : p + n ≤ length (pre ++ (gap ++ body)) = omega (arith, a, b, h) in ground arith in
    let t : take p (pre ++ (gap ++ body)) ≡ pre =
      take-append_short p 0 pre (gap ++ body) (omega arith) ∙ append-nil pre in
    let d : drop (p + n) (pre ++ (gap ++ body)) ≡ body =
      drop-append_short (p + n) n pre (gap ++ body) refl
      ∙ drop-append_short n 0 gap body (omega arith) in
    rw (e, put_uvarint) (rw fits (ap₂ (λ x y. some (x ++ (tag ++ y), n)) t d))

end_at_step :
    (bytes moved put : List ℕ) (off body_off n size : ℕ)
    → off ≡ body_off - 1
    → length bytes - body_off ≡ n
    → Zcode.size_of_uvarint (n + 1) ≡ size
    → make_room bytes off body_off size ≡ moved
    → put_uvarint moved off (n + 1) ≡ some (put, size)
    → end_at bytes body_off ≡ some put
unfolding end_at
end_at_step bytes moved put off body_off n size o l s m p =
    let b : (size == size) ≡ true = ground arith in
    rw (l, end_at)
      (rw (s, end_at)
        (rw (sym o, end_at) (rw (m, end_at) (rw (p, end_at) (rw l (rw s (rw b refl)))))))

end_at_lem :
    (pre body : List ℕ)
    → end_at (pre ++ (0 ∷ body)) (length pre + 1) ≡ some (pre ++ Zcode.append [] (some body))
unfolding Zcode.append
end_at_lem pre body =
    let n = length body in
    let tag = append_uvarint [] (n + 1) in
    let room = make_room-Room pre body (length tag) (tag_positive (n + 1)) (tag_room n) in
    end_at_step (pre ++ (0 ∷ body)) _ (pre ++ (tag ++ body)) (length pre) (length pre + 1) n
      (length tag) (omega arith) (omega (arith, length-append pre (0 ∷ body)))
      (size_of_uvarint_lem (n + 1)) room.layout
      (put_uvarint_lem pre room.gap body tag (n + 1) refl room.size)

end_container_lem :
    (pre body : List ℕ) (outer : List ℕ)
    → end_container (record { bytes = pre ++ (0 ∷ body); containers = (length pre + 1) ∷ outer })
      ≡ some (record { bytes = pre ++ Zcode.append [] (some body); containers = outer })
unfolding end_container
end_container_lem pre body outer = rw (end_at_lem pre body, end_container) refl

begin_container_lem :
    (b : Builder)
    → begin_container b
      ≡ record { bytes = b.bytes ++ (0 ∷ []); containers = (length b.bytes + 1) ∷ b.containers }
unfolding begin_container
begin_container_lem b =
    ap (λ n. record { bytes = b.bytes ++ (0 ∷ []); containers = n ∷ b.containers })
      (length-append b.bytes (0 ∷ []))

mutual
  unfolding append build_item encode_item

  build_item_run :
      (i : Item) (b : Builder)
      → build_item b i ≡ some (record b { bytes = b.bytes ++ encode_item i })
  build_item_run (leaf v) b = ap (λ l. some (record b { bytes = l })) (append_lem b.bytes v)
  build_item_run (container items) b =
      let p = b.bytes in
      let body = encode_items items in
      let c : Builder = record {
        bytes = p ++ (0 ∷ []);
        containers = (length p + 1) ∷ b.containers;
      } in
      let h = build_items_run items c in
      let a : (p ++ (0 ∷ [])) ++ body ≡ p ++ (0 ∷ body) = append_assoc p (0 ∷ []) body in
      ap (λ x. and_then end_container (build_items x items)) (begin_container_lem b)
      ∙ ap (and_then end_container) h
      ∙ ap (λ l. end_container (record { bytes = l; containers = (length p + 1) ∷ b.containers })) a
      ∙ end_container_lem p body b.containers

  build_items_run :
      (is : Items) (b : Builder)
      → build_items b is ≡ some (record b { bytes = b.bytes ++ encode_items is })
  build_items_run no_items b = ap (λ l. some (record b { bytes = l })) (sym (append-nil b.bytes))
  build_items_run (item_and i is) b =
      ap (and_then (λ c. build_items c is)) (build_item_run i b)
      ∙ build_items_run is _
      ∙ ap (λ l. some (record b { bytes = l }))
          (append_assoc b.bytes (encode_item i) (encode_items is))

-- However values nest, the builder's in-place work appends the encoding that the package's comment
-- gives, and leaves the containers that were open as they were, with no panic.
pub build_item_lem :
    (i : Item) (b : Builder) → build_item b i ≡ some (record b { bytes = b.bytes ++ encode_item i })
build_item_lem = build_item_run
