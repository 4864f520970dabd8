-- ===== src/Session/Invariant.antt =====
-- A well-formed session: the sequence numbers, the arrays and the limits; and that what a session
-- sends leaves it so.
use openspodes.Prelude.{
  ℕ, ◌+◌, ◌^◌, ◌≤◌, ◌<◌, ◌≡◌, refl, sym, subst, arith, Bool, true, false, List, length,
  length-append, ltb, ◌==◌, not, if◌then◌else◌, u32, bit_and,
}
use openspodes.Prelude.Bits.{and_mask}
use openspodes.Err.{Call, Outcome, ok, err, state, Result, done, refused}
use openspodes.Transport.Address.{HdlcAddress}
use openspodes.Transport.Frame.{HdlcFrame, hdlc_frame, max_frame_size}
use openspodes.Session.{
  Session, SessionState, idle, connected, Host, Machine, set_state, enter_ndm, state_code,
}
use openspodes.Session.Send.{
  on_line, session_send_frame, send_frmr, send_rr, send_dm, send_ua_xid, handle_disc, send_apdu,
  llc_info, llc_command, llc_response, info_frame, max_info, line_size,
}
use openspodes.Session.Xid.Agreement.{Within}

abbrev pub IsSession : Session → Type 0
IsSession s =
    (s.send_seq < 8)
    × (s.recv_seq < 8)
    × (s.last_sent_seq < 8)
    × (length s.last_sent_info ≤ max_frame_size)
    × (length s.reassembly ≤ max_frame_size)
    × Within s.xid s.xid_configured

pub next_seq-lt : (n : ℕ) → bit_and (n + 1) 0x07 < 8
next_seq-lt n = omega (arith, and_mask 3 (n + 1))

abbrev pub Kept : {W : Type 0} → Machine W → Type 0
Kept m = IsSession m.session

-- An operation that keeps the session well-formed, whatever its result.
abbrev pub Keeps : {W A : Type 0} → Call (Machine W) A → Type 0
Keeps {W = W} call = (m : Machine W) → Kept m → Kept (state (call m))

-- Both ways of a test, and a call with what follows its success.
pub if-Kept :
    {W A : Type 0} (b : Bool) (r r' : Outcome (Machine W) A)
    → (b ≡ true → Kept (state r))
    → (b ≡ false → Kept (state r'))
    → Kept (state (if b then r else r'))
if-Kept true r r' h k = h refl
if-Kept false r r' h k = k refl

pub then-Kept :
    {W A B : Type 0} (r : Outcome (Machine W) A) (f : A → Call (Machine W) B)
    → Kept (state r)
    → ((a : A) (m : Machine W) → Kept m → Kept (state (f a m)))
    → Kept (state {S = Machine W} {A = B} (elim r [ ok a m ↦ f a m | err e m ↦ err e m ]))
then-Kept (ok a m) f h k = k a m h
then-Kept (err e m) f h k = h

module _ {W : Type 0} (host : Host W) where
  -- Sending changes nothing of the session.
  on_line-session :
      (octets : List ℕ) (m : Machine W) → (state (on_line host octets m)).session ≡ m.session
  unfolding on_line
  on_line-session octets m = go (host.send_line octets m.world)
    where
      go :
          (r : Outcome W (Unit {0}))
          → (state {S = Machine W} {A = Unit {0}} (elim r [
            | ok u w ↦ ok tt (record m { world = w })
            | err e w ↦ err e (record m { world = w })
          ])).session
            ≡ m.session
      go (ok u w) = refl
      go (err e w) = refl

  pub send_frame-session :
      (f : HdlcFrame) (m : Machine W) → (state (session_send_frame host f m)).session ≡ m.session
  unfolding session_send_frame
  send_frame-session f m = go (hdlc_frame f line_size)
    where
      go :
          (r : Result (List ℕ))
          → (state {S = Machine W} {A = Unit {0}}
              (elim r [ done octets ↦ on_line host octets m | refused e ↦ err e m ])).session
            ≡ m.session
      go (done octets) = on_line-session octets m
      go (refused e) = refl

  pub sent-Kept :
      (f : HdlcFrame) (m : Machine W) → Kept m → Kept (state (session_send_frame host f m))
  sent-Kept f m h = subst IsSession (sym (send_frame-session f m)) h

  set_state-Kept : (st : SessionState) (m : Machine W) → Kept m → Kept (set_state host st m)
  unfolding set_state
  set_state-Kept st m h = go (state_code m.session.state == state_code st)
    where
      go :
          (b : Bool)
          → Kept (
              if b then m else (record {
                session = record m.session { state = st };
                world = host.state_changed m.session.state st m.world;
              }))
      go true = h
      go false = h

  pub enter_ndm-Kept : (m : Machine W) → Kept m → Kept (enter_ndm host m)
  unfolding enter_ndm
  enter_ndm-Kept m h =
      let (a, b, c, d, e, f) = set_state-Kept idle m h in
      (omega arith, omega arith, c, d, omega arith, f)

  pub send_frmr-Keeps : (dst : HdlcAddress) (c r : ℕ) → Keeps (send_frmr host dst c r)
  unfolding send_frmr
  send_frmr-Keeps dst c r m h = sent-Kept _ m h

  pub send_rr-Keeps : (dst : HdlcAddress) → Keeps (send_rr host dst)
  unfolding send_rr
  send_rr-Keeps dst m h = sent-Kept _ m h

  pub send_ua_xid-Keeps : (dst : HdlcAddress) → Keeps (send_ua_xid host dst)
  unfolding send_ua_xid
  send_ua_xid-Keeps dst m h = sent-Kept _ m h

  pub handle_disc-Keeps : (dst : HdlcAddress) → Keeps (handle_disc host dst)
  unfolding handle_disc send_dm
  handle_disc-Keeps dst m h =
      if-Kept (state_code m.session.state == state_code connected) _ _
        (λ _. then-Kept (send_ua_xid host dst m) _ (send_ua_xid-Keeps dst m h) λ u. enter_ndm-Kept)
        (λ _. sent-Kept _ m h)

  -- What goes out as one I-frame fits the copy that is kept of it.
  llc_info-fits :
      (s : Session) (apdu : List ℕ)
      → length apdu + 3 < 2 ^ 32
      → ltb (max_info s) (u32 (3 + length apdu)) ≡ false
      → length (llc_info s apdu) ≤ max_frame_size
  llc_info-fits s apdu small fits =
      ground (arith, length-append (if s.is_client then llc_command else llc_response) apdu)

  pub send_apdu-Keeps : (apdu : List ℕ) → length apdu + 3 < 2 ^ 32 → Keeps (send_apdu host apdu)
  unfolding send_apdu
  send_apdu-Keeps apdu small m h =
      let s = m.session in
      let frame = info_frame s s.send_seq (llc_info s apdu) in
      if-Kept (not (state_code s.state == state_code connected)) _ _ (λ _. h)
        λ _.
          if-Kept (ltb (max_info s) (u32 (3 + length apdu))) _ _ (λ _. h)
            λ fits.
              then-Kept (session_send_frame host frame m) _ (sent-Kept frame m h)
                λ u m' (a, b, c, d, e, f).
                  (next_seq-lt m'.session.send_seq, b, a, llc_info-fits s apdu small fits, e, f)
