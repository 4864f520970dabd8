-- ===== src/Buf.antt =====
-- src/openspodes.h, `osp_buf_t`: caller memory with a write position `wr` and a read position
-- `rd`. The memory is the list of its `size` octets; positions are uint32_t and wrap.
pub mod View
pub mod Compose
use openspodes.Prelude.{
  ℕ, ◌+◌, ◌^◌, ◌≤◌, ◌<◌, ◌%◌, ◌-◌, ◌≡◌, List, length, get_or, set, take, drop, u32, sub32, u8,
}
use openspodes.Prelude.Slices.{blit}
use openspodes.Err.{Call, ok}

pub record Buf : Type 0 where
  pub buf : List ℕ
  pub size : ℕ
  pub rd : ℕ
  pub wr : ℕ

-- What `osp_buf_init` sets up and every operation keeps. 2 ^ 32 is where the positions wrap.
pub record IsBuf (b : Buf) : Type 0 where
  pub ordered : b.rd ≤ b.wr
  pub within : b.wr ≤ b.size
  pub backed : length b.buf ≡ b.size
  pub narrow : b.size < 2 ^ 32

unfoldable pub buf_init : List ℕ → ℕ → Buf
buf_init mem size = record { buf = mem; size = size; rd = 0; wr = 0 }

unfoldable pub buf_written : Buf → ℕ
buf_written b = b.wr

unfoldable pub buf_unread : Buf → ℕ
buf_unread b = sub32 b.wr b.rd

unfoldable pub buf_free : Buf → ℕ
buf_free b = sub32 b.size b.wr

-- `buf->buf[buf->rd++]`
unfoldable pub next : Call Buf ℕ
next b = ok (get_or b.buf b.rd 0) (record b { rd = u32 (b.rd + 1) })

-- `buf->buf[buf->wr++] = x`
unfoldable pub put : ℕ → Call Buf (Unit {0})
put x b = ok tt (record b { buf = set b.buf b.wr x; wr = u32 (b.wr + 1) })

-- `memcpy(&buf->buf[buf->wr], data, len); buf->wr += len;`
unfoldable pub put_all : List ℕ → Call Buf (Unit {0})
put_all xs b = ok tt (record b { buf = blit b.buf b.wr xs; wr = u32 (b.wr + length xs) })

-- `buf->buf[buf->rd + i]`
unfoldable pub octet : Buf → ℕ → ℕ
octet b i = get_or b.buf (b.rd + i) 0

-- `memcpy(out, &buf->buf[buf->rd], n)`: what the caller's array receives.
unfoldable pub octets_at : Buf → ℕ → List ℕ
octets_at b n = take n (drop b.rd b.buf)

-- `buf->rd += n`
unfoldable pub skip : ℕ → Call Buf (Unit {0})
skip n b = ok tt (record b { rd = u32 (b.rd + n) })
