-- ===== src/Lib.antt =====
-- openSPODES, the link layer, block transfer, and the encodings under them.
--
-- The program is a DLMS/COSEM stack for meters. What is modelled here is the way of an APDU between
-- the application and the wire: the byte buffer and the encodings that every layer uses, COSEM
-- values, the initiate request and response, general block transfer, the HDLC frame and the COSEM
-- wrapper, and the HDLC session that sends and receives APDUs in frames.
--
-- - Err, Buf: src/openspodes.h. `Err` are the error codes of `osp_err_t`; a call is a function of the
--   state it changes, which comes back in both cases (`Outcome`). `Buf` is `osp_buf_t`. Buf/View says
--   what a buffer holds and what is still to be read, and Buf/Compose puts calls together.
-- - Codec: src/codec/codec.c. Codec/Len are the definite lengths (`osp_dlms_*_len`), Codec/Ber the
--   tags, integers and octet strings of BER, Codec/Axdr those of A-XDR. Functions have the names of
--   the source without `osp_`. Below each, a module for what is proved of it. Codec/Wire has the
--   two predicates that the formats above are made of: what a writer emits, and what a reader takes.
-- - Codec/Serialize and Codec/Value: src/codec/serialize.c and src/codec/types.h. Serialize has the
--   signed and the 64-bit integers, dates and times, the headers of structures and arrays, and bit
--   strings; Value the values of `osp_value_t`, `osp_value_read` and `osp_value_write`.
--   Codec/TypeDescription and Codec/CompactArray are the description of a type and the packed values
--   of a compact array, its writer, and the walk that reads it (`read_compact_array`, an argument of the reader of values).
-- - Service: src/service. Gbt is the block of general block transfer and its encoding, Gbt/Transfer the
--   sender, which is given the transport it uses (`Line`), Gbt/Receive the receiver. Gbt/Delivery and
--   Gbt/Confirmed are about the two ends together, without a window and with one. Initiate is
--   src/service/initiate.c.
-- - Transport: src/transport/transport.c. Crc is `osp_hdlc_fcs16`, Address and Control the two fields,
--   Frame is `osp_hdlc_frame` and `osp_hdlc_deframe`, Wrapper is `osp_wrapper_*`, and
--   Apdu sends and receives an APDU over either.
-- - Session: src/transport/hdlc_session.c. Session itself has the state and the interface `Host` to the
--   transport, the clock and the callbacks, which are the application's; Timeout the timeout values,
--   Xid the parameters and their negotiation, Send the frames that go out, Line how frames are cut out
--   of the octets that arrive, Receive the reaction of `osp_hdlc_session_recv_apdu` to each frame
--   and, in Receive/Segments, to the segments of an APDU, Wait the loops that wait for a frame, Delivery
--   what the two ends do together.
-- - Prelude: names of the library, words of fixed width and their signed reading, slices of lists, and
--   the bit operations as arithmetic. Tests: concrete inputs.
--
-- Numbers are natural numbers. Where the source has a uint8_t, uint16_t or uint32_t and a value
-- can leave its range, the wrap is written out (u8, u16, u32, sub32); a signed value is an
-- integer (Prelude/Ints), a floating-point value the word of its bits. Arrays with a length in
-- use are lists; an octet of the source is below 256, and a theorem that needs it says so
-- (AllBytes). An array on the stack that is not filled in is whatever it held, an argument of the
-- definition. Pointers that the source tests for NULL are there. A loop is recursion on the list
-- or the count it runs over, or on fuel where it is not seen to end.
--
-- Fuel: the waiting loops of the session end when the transport lets them, and `none` is one that
-- still waits; a frame that has arrived needs one round. The XID loop has as much fuel as its field
-- has octets, and one: it goes on by two octets a round, and the last round is the test that ends it. The sender of blocks needs at most as many turns as
-- the APDU has octets, since each sends one at least. The receiver of blocks has no bound of its
-- own, and `none` is one that still waits. The reader of values needs as much as the values are
-- nested, and `none` is a deeper nesting; the walk over a compact array as much as its type is
-- nested. The loop over received octets steps one octet at a time, where the source moves the buffer
-- down to the next flag.
--
-- Not modelled: connect and disconnect of the session; the initiate error; the writers behind the
-- tags 0xEC to 0xFF, which never go on the wire, and the conversions of COSEM date-time; the other
-- services, the interface classes, the server and the client, security and the concentrator, which
-- stand above these parts; and src/security/streebog, a copy of another project. The transport, the
-- clock and the callbacks are parameters. What is assumed of a transport is, in Apdu, that it hands
-- over the octets that wait, no more than the array holds, in one read, and in Gbt/Confirmed that it
-- takes what is sent and brings the peer's answer. The line of Gbt/Delivery that keeps what is sent in
-- order is a transport of its own.
pub mod Prelude
pub mod Err
pub mod Buf
pub mod Codec
pub mod Transport
pub mod Service
pub mod Session
pub mod Tests
