-- ===== src/Transport/Frame/InBounds.antt =====
-- Every frame that `osp_hdlc_deframe` accepts has its information field within the octets received,
-- in front of the frame check sequence.
use openspodes.Prelude.{ℕ, ◌+◌, ◌-◌, ◌≤◌, ◌≡◌, List, length, take, drop}
use openspodes.Transport.Control.{Control}
use openspodes.Transport.Frame.{HdlcFrame}

-- The information field lies in front of the frame check sequence.
abbrev pub InfoWithin : List ℕ → HdlcFrame → Type 0
InfoWithin d g =
    (k : ℕ) × (k + length g.info ≤ length d - 3) × (g.info ≡ take (length g.info) (drop k d))
