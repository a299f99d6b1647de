-- ===== src/Op/Uniq.antt =====
-- The operator uniq: runtime/sam/op/uniq/uniq.go.
pub mod Runs
pub mod Stream
pub mod Done
use super.Prelude.{
  ℕ, zero, suc, ◌+◌, ◌%◌, ◌^◌, Bool, true, false, Option, none, some, List, [], ◌∷◌, ◌++◌,
}
use super.Prelude.{nat_eq, ◌==◌, if◌then◌else◌}
use super.Zcode.Counted.{counted_bytes}
use super.Zcode.Bytes as Zcode
use super.Types.{record_of, field, no_fields, primitive, Typ, Value, content, list_beq}
use super.Prelude.Result.{Result, ok, err}
use super.Op.Pull.{Fault, panicked, Pull, Pulled, eos, sends}

-- The struct Op, less the parent and the flag, which do not change. The count is a uint64, and `last`
-- is `none` where it is nil.
pub record Uniq : Type 0 where
  pub count : ℕ
  pub last : Option Value
  pub at_end : Bool

abbrev pub initial : Uniq
initial = record { count = 0; last = none; at_end = false }

-- TypeUint64
abbrev pub uint64 : Typ
uint64 = primitive 3

-- bytes.Equal on the bytes of two values: the types are not compared, and nil is as good as empty.
unfoldable pub same_bytes : Value → Value → Bool
same_bytes t l = list_beq (content t.bytes) (content l.bytes)

-- The function EncodeUint of primitive.go; a uint64 has at most 8 bytes.
unfoldable pub encode_uint : ℕ → List ℕ
unfolding counted_bytes
encode_uint n = elim (counted_bytes 8 n) [ none ↦ [] | some bs ↦ bs ]

-- The method wrap, of the flag, the last value and the count. The record type that it looks up has the
-- two fields.
unfoldable pub wrap : Bool → Value → ℕ → Value
unfolding Zcode.append encode_uint
wrap cflag t n =
    if cflag
    then record {
      typ = record_of (field "value" t.typ (field "count" uint64 no_fields));
      bytes = some (Zcode.append (Zcode.append [] t.bytes) (some (encode_uint n)));
    }
    else t

module _ (cflag : Bool) where
  pub record Step : Type 0 where
    pub count : ℕ
    pub last : Option Value
    pub out : List Value

  -- The method appendUniq; it dereferences a nil `last` where the count is not 0.
  unfoldable pub append_uniq : {E : Type 0} → Step → Value → Result (Fault E) Step
  append_uniq st t = elim (st.count == 0) [
    | true ↦ ok (record st { last = some t; count = 1 })
    | false ↦ elim st.last [
      | none ↦ err panicked
      | some l ↦ elim (same_bytes t l) [
        | true ↦ ok (record st { count = (st.count + 1) % 2 ^ 64 })
        | false ↦
            ok (record { last = some t; count = 1; out = st.out ++ (wrap cflag l st.count ∷ []) })
      ]
    ]
  ]

  unfoldable pub append_all : {E : Type 0} → Step → List Value → Result (Fault E) Step
  unfolding append_uniq
  append_all st [] = ok st
  append_all st (t ∷ ts) = elim (append_uniq st t) [ err e ↦ err e | ok st' ↦ append_all st' ts ]

  module _ {E S : Type 0} (parent : Pull E S Value) where
    -- The end of the parent's stream.
    unfoldable pub flush : Uniq → S → Option (Pulled E Value × (Uniq × S))
    flush u s = elim u.last [
      | none ↦ eos (u, s)
      | some l ↦ sends (wrap cflag l u.count ∷ []) (record u { last = none; at_end = true }, s)
    ]

    -- The loop of Pull, with fuel.
    unfoldable pub loop : ℕ → Bool → Uniq → S → Option (Pulled E Value × (Uniq × S))
    unfolding append_all flush
    loop zero d u s = none
    loop (suc fuel) d u s = elim (parent d s) [
      | none ↦ none
      | some (err e, s1) ↦ some (err e, (u, s1))
      | some (ok none, s1) ↦ flush u s1
      | some (ok (some vals), s1) ↦
          elim (append_all (record { count = u.count; last = u.last; out = [] }) vals) [
            | err e ↦ some (err e, (u, s1))
            | ok st ↦
                let u' = record u { count = st.count; last = st.last } in
                elim st.out [ [] ↦ loop fuel d u' s1 | v ∷ vs ↦ sends (v ∷ vs) (u', s1) ]
          ]
    ]

    -- The method Pull.
    unfoldable pub pull : ℕ → Pull E (Uniq × S) Value
    unfolding loop
    pull fuel d (u, s) = elim u.at_end [
      | true ↦ eos (record u { at_end = false }, s)
      | false ↦ loop fuel d u s
    ]
