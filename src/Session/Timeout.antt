-- ===== src/Session/Timeout.antt =====
-- src/transport/hdlc_session.c: the timeout values of the HDLC setup, brought into their ranges, and
-- the time left of a deadline on a millisecond clock that wraps.
use openspodes.Prelude.{
  ℕ, ◌+◌, ◌*◌, ◌-◌, ◌^◌, ◌≤◌, ◌<◌, ◌≡◌, arith, ltb, leb, ◌==◌, if◌then◌else◌, u32, sub32,
}

abbrev pub inter_octet_min_ms : ℕ
inter_octet_min_ms = 20

abbrev pub inter_octet_max_ms : ℕ
inter_octet_max_ms = 6000

abbrev pub inter_octet_default_ms : ℕ
inter_octet_default_ms = 25

abbrev pub inactivity_max_s : ℕ
inactivity_max_s = 120

abbrev pub wait_forever_ms : ℕ
wait_forever_ms = 0

-- UINT32_MAX
abbrev pub no_deadline : ℕ
no_deadline = 2 ^ 32 - 1

abbrev pub poll_chunk_ms : ℕ
poll_chunk_ms = 60000

unfoldable pub normalize_inter_octet_ms : ℕ → ℕ
normalize_inter_octet_ms ms =
    if ms == 0
    then inter_octet_default_ms
    else if ltb ms inter_octet_min_ms
    then inter_octet_min_ms
    else if ltb inter_octet_max_ms ms
    then inter_octet_max_ms
    else ms

unfoldable pub normalize_inactivity_s : ℕ → ℕ
normalize_inactivity_s seconds = if ltb inactivity_max_s seconds then inactivity_max_s else seconds

unfoldable pub inactivity_wait_ms : ℕ → ℕ
inactivity_wait_ms inactivity_s =
    let s = normalize_inactivity_s inactivity_s in
    if s == 0 then wait_forever_ms else u32 (s * 1000)

-- `now` is what the clock shows at the call.
unfoldable pub deadline_ms : ℕ → ℕ → ℕ
deadline_ms now frame_timeout_ms =
    if frame_timeout_ms == wait_forever_ms then no_deadline else u32 (now + frame_timeout_ms)

unfoldable pub remaining_ms : ℕ → ℕ → ℕ
remaining_ms now deadline =
    if deadline == no_deadline
    then no_deadline
    else if leb deadline now
    then 0
    else sub32 deadline now

unfoldable pub poll_wait_ms : ℕ → ℕ
poll_wait_ms wait_ms = if wait_ms == no_deadline then poll_chunk_ms else wait_ms

-- For a deadline set at one time and read `elapsed` ms later, where neither the deadline nor the
-- clock comes to UINT32_MAX or beyond: what remains is the timeout less the time elapsed, and 0 once
-- that is over.
pub remaining-deadline :
    (start timeout elapsed : ℕ)
    → 0 < timeout
    → start + timeout < no_deadline
    → start + elapsed ≤ no_deadline
    → remaining_ms (start + elapsed) (deadline_ms start timeout) ≡ timeout - elapsed
unfolding remaining_ms deadline_ms
remaining-deadline start timeout elapsed p q r = ground arith

-- For a deadline that wraps past the end of the 32-bit clock, nothing remains at any reading of the
-- clock up to that end, the first one included: the wait is over as soon as it begins.
pub remaining-deadline-wrapped :
    (start timeout elapsed : ℕ)
    → 0 < timeout
    → timeout < 2 ^ 32
    → start < 2 ^ 32
    → 2 ^ 32 ≤ start + timeout
    → start + elapsed < 2 ^ 32
    → remaining_ms (start + elapsed) (deadline_ms start timeout) ≡ 0
unfolding remaining_ms deadline_ms
remaining-deadline-wrapped start timeout elapsed p q r s t = ground arith
