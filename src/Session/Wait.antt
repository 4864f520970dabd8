-- ===== src/Session/Wait.antt =====
-- src/transport/hdlc_session.c, `session_recv_frame` and the way from it to the handler of
-- `osp_hdlc_session_recv_apdu`. How long they wait is the transport's affair, so the loops run on
-- fuel, and `none` is a loop that is still waiting.
pub mod Buffered
use openspodes.Prelude.{
  ℕ, zero, suc, ◌+◌, ◌-◌, Bool, ◌&&◌, List, [], ◌++◌, length, ltb, leb, ◌==◌, not, if◌then◌else◌,
  Option, none, some,
}
use openspodes.Err.{Err, Call, Outcome, ok, err, state, nomem, io, invalid, timeout, unsupported}
use openspodes.Transport.Frame.{HdlcFrame, zero_frame, hdlc_deframe}
use openspodes.Session.{
  Session, SessionState, connected, Host, Machine, TimeoutKind, inter_octet, inter_frame,
  state_code, with_session,
}
use openspodes.Session.Timeout.{
  normalize_inter_octet_ms, deadline_ms, remaining_ms, poll_wait_ms, wait_forever_ms, no_deadline,
}
use openspodes.Session.Send.{send_frmr, line_size}
use openspodes.Session.Line.{candidate, waiting, scan}
use openspodes.Session.Receive.{handle_frame, frmr_w}

-- One round of the outer loop ends the call or goes on.
pub data Round (W : Type 0) : Type 0 where
  returns : Outcome (Machine W) HdlcFrame → Round W
  again : Machine W → Round W

abbrev pub with_rx : {W : Type 0} → List ℕ → Machine W → Machine W
with_rx d m = with_session (λ s. record s { rx = d }) m

module _ {W : Type 0} (host : Host W) where
  abbrev pub notify : TimeoutKind → ℕ → Machine W → Machine W
  notify kind param m = record m { world = host.timed_out kind param m.world }

  -- A frame whose control field is not known is answered with FRMR, if the link is up, and the call
  -- ends as if no frame had come.
  unfoldable pub on_failure : HdlcFrame → Err → Call (Machine W) HdlcFrame
  on_failure f unsupported m =
      if state_code m.session.state == state_code connected
      then err timeout (state (send_frmr host f.source f.control_raw frmr_w m))
      else err timeout m
  on_failure f e m = err e m

  unfoldable pub on_candidate : List ℕ → Call (Machine W) HdlcFrame
  on_candidate d m = elim (hdlc_deframe d zero_frame) [
    | ok u f ↦ ok f m
    | err e f ↦ on_failure f e m
  ]

  -- Nothing came in the time: octets that wait are dropped, and the loop goes on with none.
  unfoldable pub on_silence : List ℕ → ℕ → ℕ → Machine W → Round W
  on_silence d inter_ms frame_timeout_ms m =
      if ltb 0 (length d)
      then again (with_rx [] (notify inter_octet inter_ms m))
      else if frame_timeout_ms == wait_forever_ms
      then again m
      else returns (err timeout (notify inter_frame m.session.inactivity_timeout_s (with_rx [] m)))

  unfoldable pub on_recv : List ℕ → ℕ → ℕ → Machine W → Outcome W (List ℕ) → Round W
  on_recv d inter_ms frame_timeout_ms m (ok octets w) =
      if length octets == 0
      then returns (err io (record m { world = w }))
      else again (with_rx (d ++ octets) (record m { world = w }))
  on_recv d inter_ms frame_timeout_ms m (err timeout w) =
      on_silence d inter_ms frame_timeout_ms (record m { world = w })
  on_recv d inter_ms frame_timeout_ms m (err e w) = returns (err e (record m { world = w }))

  -- The clock is read only for a deadline.
  abbrev pub read_remaining : ℕ → W → ℕ × W
  read_remaining deadline w =
      let read = host.now_ms w in
      if deadline == no_deadline then (no_deadline, w) else (remaining_ms read.0 deadline, read.1)

  abbrev pub read_deadline : ℕ → W → ℕ × W
  read_deadline frame_timeout_ms w =
      let read = host.now_ms w in
      if frame_timeout_ms == wait_forever_ms
      then (no_deadline, w)
      else (deadline_ms read.0 frame_timeout_ms, read.1)

  unfoldable pub on_waiting : List ℕ → ℕ → ℕ → ℕ → Machine W → Round W
  on_waiting d inter_ms deadline frame_timeout_ms m =
      let left = read_remaining deadline m.world in
      let m' : Machine W = record (with_rx d m) { world = left.1 } in
      let wait = poll_wait_ms (if ltb 0 (length d) then inter_ms else left.0) in
      if leb line_size (length d)
      then returns (err nomem m)
      else if not (frame_timeout_ms == wait_forever_ms) && left.0 == 0
      then returns (err timeout (notify inter_frame m.session.inactivity_timeout_s m'))
      else on_recv d inter_ms frame_timeout_ms m'
          (host.recv_line (line_size - length d) wait m'.world)

  unfoldable pub recv_round : ℕ → ℕ → ℕ → Machine W → Round W
  recv_round inter_ms deadline frame_timeout_ms m = elim (scan m.session.rx) [
    | candidate d rest ↦ returns (on_candidate d (with_rx rest m))
    | waiting d ↦ on_waiting d inter_ms deadline frame_timeout_ms m
  ]

  unfoldable pub recv_loop : ℕ → ℕ → ℕ → ℕ → Machine W → Option (Outcome (Machine W) HdlcFrame)
  recv_loop zero inter_ms deadline frame_timeout_ms m = none
  recv_loop (suc fuel) inter_ms deadline frame_timeout_ms m =
      elim (recv_round inter_ms deadline frame_timeout_ms m) [
        | returns r ↦ some r
        | again m' ↦ recv_loop fuel inter_ms deadline frame_timeout_ms m'
      ]

  unfoldable pub recv_frame : ℕ → ℕ → Machine W → Option (Outcome (Machine W) HdlcFrame)
  recv_frame fuel frame_timeout_ms m =
      let inter_ms = normalize_inter_octet_ms m.session.inter_octet_timeout_ms in
      let deadline = read_deadline frame_timeout_ms m.world in
      recv_loop fuel inter_ms deadline.0 frame_timeout_ms (record m { world = deadline.1 })

  -- Frames that do not decode are dropped, as many as there is fuel for.
  unfoldable pub recv_valid : ℕ → ℕ → ℕ → ℕ → Machine W → Option (Outcome (Machine W) (List ℕ))
  recv_valid zero fuel buf_size timeout_ms m = none
  recv_valid (suc frames) fuel buf_size timeout_ms m = elim (recv_frame fuel timeout_ms m) [
    | none ↦ none
    | some r ↦ elim r [
      | ok f m' ↦ some (handle_frame host buf_size f m')
      | err e m' ↦ elim e [
        | invalid ↦ recv_valid frames fuel buf_size timeout_ms m'
        | e' ↦ some (err e' m')
      ]
    ]
  ]

  unfoldable pub recv_apdu : ℕ → ℕ → ℕ → ℕ → Machine W → Option (Outcome (Machine W) (List ℕ))
  recv_apdu frames fuel buf_size timeout_ms m =
      if not (state_code m.session.state == state_code connected)
      then some (err invalid m)
      else recv_valid frames fuel buf_size timeout_ms m
