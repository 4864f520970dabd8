-- ===== src/Service/Gbt/Block.antt =====
-- A block is read back as it was written, and what both do with too few octets.
use openspodes.Prelude.{
  ℕ, suc, ◌+◌, ◌^◌, ◌≤◌, ◌<◌, ◌≡◌, refl, ap, ◌∙◌, Bool, true, false, List, [], ◌∷◌, ◌++◌, subst,
  length, length-take, take, arith, not, ◌==◌, ltb, if◌then◌else◌, append_assoc, length-append,
  bit_and, bit_or,
}
use openspodes.Prelude.Slices.{blit, take-blit}
use openspodes.Prelude.Table.{agree_below, holds_below}
use openspodes.Err.{Call, ok, ◌>>◌, attempt}
use openspodes.Buf.{Buf, IsBuf}
use openspodes.Buf.View.{pending, content, Reads, Writes, Consumes-refl}
use openspodes.Buf.Compose.{Reads-then}
use openspodes.Codec.Len.Format.{len_octets}
use openspodes.Codec.Wire.{
  Emits, Takes, Emits-nothing, Takes-pure, Emits-then, Takes-then, Reads-next, Writes-next,
  Emits-code, Takes-code, Emits-Takes,
}
use openspodes.Codec.Wire.Parts.{
  u16_octets, Emits-u8, Takes-u8, Emits-u16, Takes-u16, Emits-push_length, Takes-read_length,
}
use openspodes.Service.Gbt.{
  Gbt, control_octet, write_data, read_data, read_element, gbt_encode, gbt_decode,
  tag_general_block_transfer, max_octet_len, gbt_last_block, gbt_streaming, gbt_window_mask,
}

-- A block whose fields fit their fields on the wire and whose octets are in its array.
pub record IsGbt (g : Gbt) : Type 0 where
  pub window_fits : g.window < 64
  pub number_fits : g.block_number < 2 ^ 16
  pub ack_fits : g.block_number_ack < 2 ^ 16
  pub data_fits : g.block_data_len ≤ max_octet_len
  pub data_there : g.block_data_len ≤ length g.block_data

-- The octets of the block itself.
abbrev pub payload : Gbt → List ℕ
payload g = take g.block_data_len g.block_data

-- What stands in front of them.
abbrev pub header : Gbt → List ℕ
header g =
    tag_general_block_transfer
    ∷ control_octet g
    ∷ (u16_octets g.block_number ++ (u16_octets g.block_number_ack ++ len_octets g.block_data_len))

abbrev pub gbt_octets : Gbt → List ℕ
gbt_octets g = header g ++ payload g

-- The block in an array that held `old`.
abbrev pub received : List ℕ → Gbt → Gbt
received old g = record g { block_data = blit old 0 (payload g) }

pub Emits-attempt : {m : Call Buf (Unit {0})} (xs : List ℕ) → Emits m xs → Emits (attempt m) xs
Emits-attempt xs p b v room = let (c, e, a) = p b v room in (c, rw (e, attempt) refl, a)

pub Emits-data : (xs : List ℕ) → Emits (write_data xs) xs
unfolding write_data
Emits-data [] = Emits-nothing
Emits-data (x ∷ xs) = Emits-then (x ∷ []) xs (Emits-attempt (x ∷ []) (Emits-u8 x)) (Emits-data xs)

pub Takes-element :
    (old : List ℕ) (i x : ℕ) → Takes (read_element old i) (x ∷ []) (blit old i (x ∷ []))
unfolding read_element
Takes-element old i x b rest v p =
    let (c, e, q) = Takes-u8 x b rest v p in (c, rw (e, read_element) refl, q)

pub Takes-data : (xs old : List ℕ) (i : ℕ) → Takes (read_data (length xs) i old) xs (blit old i xs)
unfolding read_data
Takes-data [] old i = Takes-pure old
Takes-data (x ∷ xs) old i =
    Takes-then (read_data (length xs) (suc i)) (x ∷ []) xs (Takes-element old i x)
      (Takes-data xs (blit old i (x ∷ [])) (suc i))

pub length-payload : (g : Gbt) → IsGbt g → length (payload g) ≡ g.block_data_len
length-payload g v = omega (arith, length-take g.block_data_len g.block_data, v.data_there)

-- The header is written, and then whatever the octets of the block come to.
pub write_header :
    (g : Gbt) (written : List ℕ) (b : Buf)
    → IsGbt g
    → IsBuf b
    → b.wr + length (header g) ≤ b.size
    → ((c : Buf)
        → IsBuf c
        → c.wr ≡ b.wr + length (header g)
        → c.size ≡ b.size
        → Writes (write_data (payload g)) c written)
    → Writes (gbt_encode g) b (header g ++ written)
unfolding gbt_encode
write_header g written b v vb room write =
    let c = control_octet g in
    let number = u16_octets g.block_number in
    let number_ack = u16_octets g.block_number_ack in
    let len = len_octets g.block_data_len in
    Writes-next (0xE0 ∷ []) (c ∷ (number ++ (number_ack ++ (len ++ written))))
      (Emits-code (0xE0 ∷ []) (Emits-u8 0xE0)) vb (omega arith)
      λ b1 a1.
        Writes-next (c ∷ []) (number ++ (number_ack ++ (len ++ written)))
          (Emits-code (c ∷ []) (Emits-u8 c)) a1.valid (omega (arith, a1.moved, a1.same_size))
          λ b2 a2.
            Writes-next number (number_ack ++ (len ++ written))
              (Emits-code number (Emits-u16 g.block_number v.number_fits)) a2.valid
              (omega (arith, a1.moved, a1.same_size, a2.moved, a2.same_size))
              λ b3 a3.
                Writes-next number_ack (len ++ written)
                  (Emits-code number_ack (Emits-u16 g.block_number_ack v.ack_fits)) a3.valid
                  (omega
                    (arith, a1.moved, a1.same_size, a2.moved, a2.same_size, a3.moved, a3.same_size))
                  λ b4 a4.
                    let room' : b4.wr + length len ≤ b4.size = omega (
                      arith, a1.moved, a1.same_size, a2.moved, a2.same_size, a3.moved, a3.same_size,
                      a4.moved, a4.same_size,
                    ) in
                    Writes-next len written (Emits-push_length g.block_data_len) a4.valid room'
                      λ b5 a5.
                        write b5 a5.valid
                          (omega (arith, a1.moved, a2.moved, a3.moved, a4.moved, a5.moved))
                          (omega (
                            arith, a1.same_size, a2.same_size, a3.same_size, a4.same_size,
                            a5.same_size,
                          ))

pub Emits-gbt : (g : Gbt) → IsGbt g → Emits (gbt_encode g) (gbt_octets g)
Emits-gbt g v b vb room =
    write_header g (payload g) b v vb (omega (arith, length-append (header g) (payload g)))
      λ c w moved same_size.
        Emits-data (payload g) c w
          (omega (arith, moved, same_size, length-append (header g) (payload g)))

-- The control octet gives back the two flags and the window.
flags : Bool → Bool → ℕ → ℕ
flags last streaming w =
    bit_or (bit_or (if last then 0x80 else 0) (if streaming then 0x40 else 0)) (bit_and w 0x3F)

record ControlFields (last streaming : Bool) (w c : ℕ) : Type 0 where
  is_last : not (bit_and c gbt_last_block == 0) ≡ last
  is_streaming : not (bit_and c gbt_streaming == 0) ≡ streaming
  is_window : bit_and c gbt_window_mask ≡ w

-- Each field of a control octet, for the 64 windows.
fields :
    (last streaming : Bool) (w : ℕ)
    → w < 64
    → let c = flags last streaming w in
      (bit_and c 0x80 ≡ (if last then 0x80 else 0))
      × (bit_and c 0x40 ≡ (if streaming then 0x40 else 0))
      × (bit_and c 0x3F ≡ w)
unfolding flags holds_below
fields true true w h = (
  agree_below 64 (λ i. bit_and (flags true true i) 0x80) (λ _. 0x80) w refl h,
  agree_below 64 (λ i. bit_and (flags true true i) 0x40) (λ _. 0x40) w refl h,
  agree_below 64 (λ i. bit_and (flags true true i) 0x3F) (λ i. i) w refl h,
)
fields true false w h = (
  agree_below 64 (λ i. bit_and (flags true false i) 0x80) (λ _. 0x80) w refl h,
  agree_below 64 (λ i. bit_and (flags true false i) 0x40) (λ _. 0) w refl h,
  agree_below 64 (λ i. bit_and (flags true false i) 0x3F) (λ i. i) w refl h,
)
fields false true w h = (
  agree_below 64 (λ i. bit_and (flags false true i) 0x80) (λ _. 0) w refl h,
  agree_below 64 (λ i. bit_and (flags false true i) 0x40) (λ _. 0x40) w refl h,
  agree_below 64 (λ i. bit_and (flags false true i) 0x3F) (λ i. i) w refl h,
)
fields false false w h = (
  agree_below 64 (λ i. bit_and (flags false false i) 0x80) (λ _. 0) w refl h,
  agree_below 64 (λ i. bit_and (flags false false i) 0x40) (λ _. 0) w refl h,
  agree_below 64 (λ i. bit_and (flags false false i) 0x3F) (λ i. i) w refl h,
)

control_fields :
    (g : Gbt) → IsGbt g → ControlFields g.last_block g.streaming g.window (control_octet g)
unfolding control_octet flags
control_fields g v =
    let (a, b, c) = fields g.last_block g.streaming g.window v.window_fits in
    record {
      is_last = rw a (back g.last_block);
      is_streaming = rw b (back' g.streaming);
      is_window = c;
    }
  where
    back : (k : Bool) → not ((if k then 0x80 else 0) == 0) ≡ k
    back true = refl
    back false = refl

    back' : (k : Bool) → not ((if k then 0x40 else 0) == 0) ≡ k
    back' true = refl
    back' false = refl

pub same_payload :
    (g : Gbt) (old : List ℕ)
    → IsGbt g
    → length old ≡ max_octet_len
    → payload (received old g) ≡ payload g
same_payload g old v h =
    ap (λ (n : ℕ). take n (blit old 0 (payload g))) (omega (arith, length-payload g v))
    ∙ take-blit (payload g) old 0 (omega (arith, length-payload g v, v.data_fits))

-- Behind the header the octets of the block are read into the array.
pub read_block_header :
    (g : Gbt) (old got more rest : List ℕ) (b : Buf)
    → IsGbt g
    → IsBuf b
    → pending b ≡ header g ++ more
    → ((c : Buf) → IsBuf c → pending c ≡ more → Reads (read_data g.block_data_len 0 old) c got rest)
    → Reads (gbt_decode old) b (record g { block_data = got }) rest
unfolding gbt_decode
read_block_header g old got more rest b v vb p read =
    let c = control_octet g in
    let f = control_fields g v in
    let number = u16_octets g.block_number in
    let number_ack = u16_octets g.block_number_ack in
    let len = len_octets g.block_data_len in
    let fits : ltb max_octet_len g.block_data_len ≡ false = ground (arith, v.data_fits) in
    Reads-next _ (0xE0 ∷ []) (c ∷ (number ++ (number_ack ++ (len ++ more))))
      (Takes-code (0xE0 ∷ []) (Takes-u8 0xE0)) vb p
      λ b1 v1 p1.
        Reads-next _ (c ∷ []) (number ++ (number_ack ++ (len ++ more)))
          (Takes-code (c ∷ []) (Takes-u8 c)) v1 p1
          λ b2 v2 p2.
            Reads-next _ number (number_ack ++ (len ++ more))
              (Takes-code number (Takes-u16 g.block_number v.number_fits)) v2 p2
              λ b3 v3 p3.
                Reads-next _ number_ack (len ++ more)
                  (Takes-code number_ack (Takes-u16 g.block_number_ack v.ack_fits)) v3 p3
                  λ b4 v4 p4.
                    Reads-next _ len more
                      (Takes-read_length g.block_data_len (omega (arith, v.data_fits))) v4 p4
                      λ b5 v5 p5.
                        let (d, e, w) = read b5 v5 p5 in
                        rw (fits, f.is_last, f.is_streaming, f.is_window)
                          (Reads-then (read_data g.block_data_len 0 old) _ b5 got
                            (record g { block_data = got }) rest rest (d, e, w)
                            λ c w. (c, refl, Consumes-refl c rest w.valid w.left))

pub Takes-gbt :
    (g : Gbt) (old : List ℕ) → IsGbt g → Takes (gbt_decode old) (gbt_octets g) (received old g)
Takes-gbt g old v b rest vb p =
    read_block_header g old (blit old 0 (payload g)) (payload g ++ rest) rest b v vb
      (p ∙ append_assoc (header g) (payload g) rest)
      λ c vc q.
        subst (λ n. Reads (read_data n 0 old) c (blit old 0 (payload g)) rest) (length-payload g v)
          (Takes-data (payload g) old 0 c rest vc q)

-- A block whose fields fit, encoded into a buffer with nothing left to read and room for it, is
-- decoded to the same block: the flags, the window, both numbers, the length and the octets. The
-- array it is decoded into has 256 octets, and beyond the block's it keeps what it held.
pub gbt_decode-encode :
    (g : Gbt) (old : List ℕ) (b : Buf)
    → IsGbt g
    → length old ≡ max_octet_len
    → IsBuf b
    → pending b ≡ []
    → b.wr + length (gbt_octets g) ≤ b.size
    → (c : Buf) × ((gbt_encode g >> gbt_decode old) b ≡ ok (received old g) c)
      × (payload (received old g) ≡ payload g)
      × (content c ≡ content b ++ gbt_octets g)
      × (pending c ≡ [])
gbt_decode-encode g old b v room_old vb none_left room =
    let (c, e, w, p) =
      Emits-Takes (gbt_octets g) (Emits-gbt g v) (Takes-gbt g old v) b vb none_left room in
    (c, e, same_payload g old v room_old, w, p)
