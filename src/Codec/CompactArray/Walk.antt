-- ===== src/Codec/CompactArray/Walk.antt =====
-- src/codec/serialize.c, "COMPACT-ARRAY": a compact array is read. The description of the type is
-- walked over once for each element, with the contents beside it. The fuel is how deep a description
-- may be nested, and `none` is a deeper one.
use openspodes.Prelude.{
  ℕ, zero, suc, ◌+◌, Option, none, some, drop, ltb, ◌==◌, ◌||◌, if◌then◌else◌, u32, sub32,
}
use openspodes.Err.{Call, ok, err, invalid, nomem, ◌>>=◌, ◌>>◌, pure, fail_if}
use openspodes.Buf.{Buf, buf_unread}
use openspodes.Codec.Len.{ber_read_length}
use openspodes.Codec.Axdr.{axdr_read_u8, axdr_read_u16}
use openspodes.Codec.Serialize.{tag_array, tag_structure}
use openspodes.Codec.Value.{
  Value, Values, array, structure, no_items, item, Read, max_array_len, max_struct_len, pool_len,
}
use openspodes.Codec.TypeDescription.{skip_type_description}
use openspodes.Codec.CompactArray.Packed.{read_packed_value, skip_packed_value}

-- The two buffers over the description and over the contents.
pub record Compact : Type 0 where
  pub desc : Buf
  pub contents : Buf

unfoldable pub on_desc : {A : Type 0} → Call Buf A → Call Compact A
on_desc m s = elim (m s.desc) [
  | ok a d ↦ ok a (record s { desc = d })
  | err e d ↦ err e (record s { desc = d })
]

unfoldable pub on_contents : {A : Type 0} → Call Buf A → Call Compact A
on_contents m s = elim (m s.contents) [
  | ok a c ↦ ok a (record s { contents = c })
  | err e c ↦ err e (record s { contents = c })
]

-- `desc->rd = rd`
unfoldable pub rewind : ℕ → Call Compact (Unit {0})
rewind rd s = ok tt (record s { desc = record s.desc { rd = rd } })

-- The loop over the fields of a structure or the elements of an array.
unfoldable pub skip_times : Call Compact (Option (Unit {0})) → ℕ → Call Compact (Option (Unit {0}))
skip_times each zero = pure (some tt)
skip_times each (suc n) = each >>= λ r. elim r [ none ↦ pure none | some u ↦ skip_times each n ]

unfoldable pub compact_skip_description : ℕ → Call Compact (Option (Unit {0}))
compact_skip_description zero = pure none
compact_skip_description (suc fuel) = on_desc axdr_read_u8 >>= λ tag.
    if tag == tag_structure
    then (on_desc ber_read_length >>= λ n. skip_times (compact_skip_description fuel) n)
    else if tag == tag_array
    then (on_desc axdr_read_u16 >>= λ n s.
        skip_times (rewind s.desc.rd >> compact_skip_description fuel) n s)
    else (on_contents (skip_packed_value tag) >> pure (some tt))

-- `left` is OSP_MAX_ARRAY_LEN less the count.
unfoldable pub count_loop : ℕ → ℕ → ℕ → Call Compact (Option ℕ)
count_loop fuel zero count s =
    if ltb s.contents.rd s.contents.wr then err nomem s else ok (some count) s
count_loop fuel (suc left) count s =
    if ltb s.contents.rd s.contents.wr
    then ((rewind 0 >> compact_skip_description fuel) >>= λ r. elim r [
      | none ↦ pure none
      | some u ↦ count_loop fuel left (suc count)
    ])
        s
    else ok (some count) s

unfoldable pub compact_count_elements : ℕ → Call Compact (Option ℕ)
compact_count_elements fuel = count_loop fuel max_array_len 0

-- What was read is put into the result.
unfoldable pub made : (Values → Value) → Call Compact (Read Values) → Call Compact (Read Value)
made make m = m >>= λ r. pure (elim r [ none ↦ none | some p ↦ some (make p.0, p.1) ])

unfoldable pub walk_items : (ℕ → Call Compact (Read Value)) → ℕ → ℕ → Call Compact (Read Values)
walk_items walk zero used = pure (some (no_items, used))
walk_items walk (suc n) used = walk used >>= λ r. elim r [
  | none ↦ pure none
  | some p ↦ walk_items walk n p.1 >>= λ r'.
      pure (elim r' [ none ↦ none | some q ↦ some (item p.0 q.0, q.1) ])
]

unfoldable pub compact_walk_description : ℕ → ℕ → Call Compact (Read Value)
compact_walk_description zero used = pure none
compact_walk_description (suc fuel) used = on_desc axdr_read_u8 >>= λ tag.
    if tag == tag_structure
    then (on_desc ber_read_length >>= λ n.
        fail_if (ltb max_struct_len n || ltb pool_len (used + n)) nomem
        >> made structure (walk_items (compact_walk_description fuel) n (used + n)))
    else if tag == tag_array
    then (on_desc axdr_read_u16 >>= λ n.
        fail_if (ltb max_array_len n || ltb pool_len (used + n)) nomem >> λ s.
        made array
          (walk_items (λ used'. rewind s.desc.rd >> compact_walk_description fuel used') n
            (used + n))
          s)
    else (on_contents (read_packed_value tag) >>= λ v. pure (some (v, used)))

-- The elements, from the start of the contents.
unfoldable pub walk_elements : ℕ → ℕ → ℕ → Call Compact (Read Value)
walk_elements fuel count used s =
    (fail_if (ltb pool_len (used + count)) nomem
        >> made array (
            walk_items (λ used'. rewind 0 >> compact_walk_description fuel used') count
              (used + count)))
      (record s { contents = record s.contents { rd = 0 } })

unfoldable pub compact_decode_elements : ℕ → ℕ → Call Compact (Read Value)
compact_decode_elements fuel used = compact_count_elements fuel >>= λ r. elim r [
  | none ↦ pure none
  | some count ↦ walk_elements fuel count used
]

-- Behind the length of the contents. They are left behind whether they are read or not.
unfoldable pub read_contents : ℕ → ℕ → Buf → ℕ → Call Buf (Read Value)
read_contents fuel used desc clen c =
    let contents : Buf = record { buf = drop c.rd c.buf; size = c.size; rd = 0; wr = clen } in
    let after : Buf = record c { rd = u32 (c.rd + clen) } in
    if ltb (buf_unread c) clen
    then err invalid c
    else elim (compact_decode_elements fuel used record { desc = desc; contents = contents }) [
      | ok r s ↦ ok r after
      | err e s ↦ err e after
    ]

-- Behind the description, which a copy of the buffer has been moved over to `probe`.
unfoldable pub read_described : ℕ → ℕ → Buf → Call Buf (Read Value)
read_described fuel used probe b =
    let desc_len = sub32 probe.rd b.rd in
    let desc : Buf = record { buf = drop b.rd b.buf; size = b.size; rd = 0; wr = desc_len } in
    (ber_read_length >>= read_contents fuel used desc) (record b { rd = u32 (b.rd + desc_len) })

unfoldable pub read_compact_array : ℕ → ℕ → Call Buf (Read Value)
read_compact_array fuel used b = elim (skip_type_description b) [
  | ok u probe ↦ read_described fuel used probe b
  | err e probe ↦ err e b
]
