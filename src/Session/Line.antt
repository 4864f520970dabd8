-- ===== src/Session/Line.antt =====
-- src/transport/hdlc_session.c, `session_recv_frame`: how frames are cut out of the octets that
-- arrive.
pub mod Cutting
use openspodes.Prelude.{
  ℕ, ◌+◌, ◌-◌, Bool, List, [], ◌∷◌, length, get_or, take, drop, ltb, leb, ◌==◌, not, if◌then◌else◌,
  ◌<<◌, bit_and, bit_or,
}
use openspodes.Transport.Frame.{hdlc_flag, frame_length_field}
use openspodes.Session.Send.{line_size}

-- What the loop over the buffered octets ends with: the octets of a candidate for
-- `osp_hdlc_deframe` and what is left behind them, or the octets that wait for more.
pub data Scan : Type 0 where
  candidate : List ℕ → List ℕ → Scan
  waiting : List ℕ → Scan

-- `1u + flen + 1u`
abbrev pub need : List ℕ → ℕ
need d = 1 + frame_length_field d + 1

-- The loop that parses complete frames. Skipping to a flag and dropping one octet of a false start
-- are both a step to the next octet.
unfoldable pub scan : List ℕ → Scan
scan [] = waiting []
scan (x ∷ xs) =
    let rest = scan xs in
    let d = x ∷ xs in
    if not (x == hdlc_flag)
    then rest
    else if ltb (length d) 3
    then waiting d
    else if not (bit_and (get_or d 1 0) 0xF0 == 0xA0)
    then rest
    else if ltb line_size (need d)
    then rest
    else if ltb (length d) (need d)
    then waiting d
    else if not (get_or d (need d - 1) 0 == hdlc_flag)
    then rest
    else candidate (take (need d) d) (drop (need d) d)
