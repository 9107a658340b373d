-- ===== src/Wire/Breaking.antt =====
-- readResponse of pkg/groutapi/protocol.go on a stream that breaks off, or that announces too much.
-- A read of more than will arrive takes all of it.
use grout_cni.Base.{
  ltb, leb, le→leb, length, Bytes, reading_header, payload_too_large, reading_payload, new,
  in_stage, err, ℕ, ◌^◌, ◌≤◌, ◌<◌, ◌≡◌, true, false, [], ◌++◌, arith,
}
use grout_cni.Base.State.{◌>>=◌}
use grout_cni.Wire.{Conn, max_msg_len, eof, read_full, read_payload, read_response}
use grout_cni.Wire.RoundTrip.{read_full-append, header_bytes, decode_header-bytes}

read_full-short :
    (n : ℕ) (c : Conn)
    → length c.incoming < n
    → read_full n c ≡ (err eof, record c { incoming = [] })
unfolding read_full
read_full-short n c h = let short : leb n (length c.incoming) ≡ false = ground arith in rw short

pub read_response-cut_header :
    (c : Conn)
    → length c.incoming < 12
    → read_response c ≡ (err (in_stage reading_header eof), record c { incoming = [] })
unfolding read_response ◌>>=◌
read_response-cut_header c h = rw (read_full-short 12 c h)

module _ (id status n : ℕ) (rest : Bytes) (c : Conn) (hi : id < 2 ^ 32) (hs : status < 2 ^ 32)
    (arrives : c.incoming ≡ header_bytes id status n ++ rest) where
  -- The payload is not read.
  pub read_response-too_long :
      max_msg_len < n
      → n < 2 ^ 32
      → read_response c ≡ (err (new payload_too_large), record c { incoming = rest })
  unfolding read_response ◌>>=◌
  read_response-too_long h hn =
      let long : leb n max_msg_len ≡ false = ground arith in
      rw (
        read_full-append (header_bytes id status n) rest c arrives,
        decode_header-bytes id status n hi hs hn,
        long,
      )

  pub read_response-cut_payload :
      length rest < n
      → n ≤ max_msg_len
      → read_response c ≡ (err (in_stage reading_payload eof), record c { incoming = [] })
  unfolding read_response read_payload ◌>>=◌
  read_response-cut_payload h hn =
      let some_payload : ltb 0 n ≡ true = ground arith in
      rw (
        read_full-append (header_bytes id status n) rest c arrives,
        decode_header-bytes id status n hi hs (omega arith),
        le→leb n max_msg_len hn,
        some_payload,
        read_full-short n (record c { incoming = rest }) h,
      )
