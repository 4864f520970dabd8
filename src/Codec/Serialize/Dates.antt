-- ===== src/Codec/Serialize/Dates.antt =====
-- Dates and times are read back as they were written.
use openspodes.Prelude.{
  ℕ, ◌/◌, ◌%◌, ◌^◌, ◌<◌, ◌≡◌, refl, ap, ◌∙◌, List, [], ◌∷◌, ◌++◌, length, arith, u8, u16, bit_or,
  bit_and, ◌<<◌, ◌>>>◌,
}
use openspodes.Prelude.Bits.{or_fields, and_mask}
use openspodes.Err.{invalid, nomem}
use openspodes.Buf.{octet}
use openspodes.Buf.View.{buf_unread-pending}
use openspodes.Buf.Compose.{skip_over}
use openspodes.Codec.Axdr.RoundTrip.{octet_at}
use openspodes.Codec.Wire.{Emits, Takes, Emits-then, Takes-then, Takes-last}
use openspodes.Codec.Wire.Guarded.{Emits-if_room, Takes-if_there}
use openspodes.Codec.Serialize.{
  Date, Time, Datetime, date_read, date_write, time_read, time_write, skip_three, datetime_read,
  put_reserved, datetime_write,
}

abbrev pub date_octets : Date → List ℕ
date_octets d = (d.year / 256) ∷ (d.year % 256) ∷ d.month ∷ d.day ∷ d.day_of_week ∷ []

abbrev pub time_octets : Time → List ℕ
time_octets t = t.hour ∷ t.minute ∷ t.second ∷ t.ms ∷ []

abbrev pub datetime_octets : Datetime → List ℕ
datetime_octets dt = date_octets dt.date ++ (time_octets dt.time ++ (0xFF ∷ 0xFF ∷ 0x80 ∷ []))

pub Emits-date : (d : Date) → d.year < 2 ^ 16 → Emits (date_write d) (date_octets d)
unfolding date_write
Emits-date d h =
    let e : u8 (d.year >>> 8) ≡ d.year / 256 = omega arith in
    let f : u8 (bit_and d.year 0xFF) ≡ d.year % 256 = omega (arith, and_mask 8 d.year) in
    rw (e, f) (Emits-if_room (date_octets d) 5 invalid refl)

pub Takes-date : (d : Date) → d.year < 2 ^ 16 → Takes date_read (date_octets d) d
unfolding date_read
Takes-date d h = Takes-if_there (date_octets d) 5 _ refl λ b rest v p.
    let o0 : octet b 0 ≡ d.year / 256 = octet_at b v 0 _ p (omega arith) in
    let o1 : octet b 1 ≡ d.year % 256 = octet_at b v 1 _ p (omega arith) in
    let o2 : octet b 2 ≡ d.month = octet_at b v 2 _ p (omega arith) in
    let o3 : octet b 3 ≡ d.day = octet_at b v 3 _ p (omega arith) in
    let o4 : octet b 4 ≡ d.day_of_week = octet_at b v 4 _ p (omega arith) in
    let year : bit_or (u16 (d.year / 256) << 8) (d.year % 256) ≡ d.year =
      or_fields 8 (u16 (d.year / 256)) (d.year % 256) (omega arith) ∙ omega arith in
    rw (o0, o1, o2, o3, o4, year) refl

pub Emits-time : (t : Time) → Emits (time_write t) (time_octets t)
unfolding time_write
Emits-time t = Emits-if_room (time_octets t) 4 invalid refl

pub Takes-time : (t : Time) → Takes time_read (time_octets t) t
unfolding time_read
Takes-time t = Takes-if_there (time_octets t) 4 _ refl λ b rest v p.
    let o0 : octet b 0 ≡ t.hour = octet_at b v 0 _ p (omega arith) in
    let o1 : octet b 1 ≡ t.minute = octet_at b v 1 _ p (omega arith) in
    let o2 : octet b 2 ≡ t.second = octet_at b v 2 _ p (omega arith) in
    let o3 : octet b 3 ≡ t.ms = octet_at b v 3 _ p (omega arith) in rw (o0, o1, o2, o3) refl

Emits-reserved : Emits put_reserved (0xFF ∷ 0xFF ∷ 0x80 ∷ [])
unfolding put_reserved
Emits-reserved = Emits-if_room (0xFF ∷ 0xFF ∷ 0x80 ∷ []) 3 nomem refl

Takes-three : (x y z : ℕ) → Takes skip_three (x ∷ y ∷ z ∷ []) tt
unfolding skip_three
Takes-three x y z b rest v p =
    let (c, e, q) = skip_over (x ∷ y ∷ z ∷ []) rest b v p in
    (c, ground (arith, e, buf_unread-pending b v, ap length p), q)

pub Emits-datetime :
    (dt : Datetime) → dt.date.year < 2 ^ 16 → Emits (datetime_write dt) (datetime_octets dt)
unfolding datetime_write
Emits-datetime dt h =
    let three : List ℕ = 0xFF ∷ 0xFF ∷ 0x80 ∷ [] in
    Emits-then (date_octets dt.date) (time_octets dt.time ++ three) (Emits-date dt.date h)
      (Emits-then (time_octets dt.time) three (Emits-time dt.time) Emits-reserved)

pub Takes-datetime :
    (dt : Datetime) → dt.date.year < 2 ^ 16 → Takes datetime_read (datetime_octets dt) dt
unfolding datetime_read
Takes-datetime dt h =
    let three : List ℕ = 0xFF ∷ 0xFF ∷ 0x80 ∷ [] in
    Takes-then _ (date_octets dt.date) (time_octets dt.time ++ three) (Takes-date dt.date h) (
      Takes-then _ (time_octets dt.time) three (Takes-time dt.time)
        (Takes-last three (λ _. dt) (Takes-three 0xFF 0xFF 0x80)))
