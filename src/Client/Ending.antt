-- ===== src/Client/Ending.antt =====
-- requestStream of pkg/groutapi/client.go: the fuel of its loop is enough.
use grout_cni.Base.{
  ltb, leb, ◌==◌, leb→le, Bool-cases, length, Bytes, length-drop, Stage, writing_header,
  writing_payload, reading_header, payload_too_large, reading_payload, id_mismatch, grout_status,
  Error, Result, ok, err, panic, wrap, ℕ, zero, suc, ◌+◌, ◌%◌, ◌^◌, ◌≤◌, ◌<◌, inl, inr, Bool, true,
  false, Option, none, some, List, [], ◌∷◌, ◌++◌, arith,
}
use grout_cni.Base.State.{
  State, pure, wrapped, branch, guard, continue, ◌>>=◌, ◌>>◌, Returns, Returns-wrap, Returns-bind,
  Returns-branch,
}
use grout_cni.Wire.{
  Conn, max_msg_len, ResponseHeader, write_next, write, read_full, decode_header, write_request,
  read_payload, read_response,
}
use grout_cni.Client.{Client, on_conn, next_id, stream_loop, request_stream}

-- A call that takes `n` bytes off the stream, or returns an error.
abbrev Takes : {A : Type 0} → ℕ → Conn → Result A × Conn → Type 0
Takes n c (ok a, c') = length c'.incoming + n ≤ length c.incoming
Takes n c (err e, c') = Unit
Takes n c (panic, c') = ⊥

Takes-wrap :
    {A : Type 0} (n : ℕ) (c : Conn) (s : Stage) (r : Result A) (c' : Conn)
    → Takes n c (r, c')
    → Takes n c (wrap s r, c')
Takes-wrap n c s (ok a) c' h = h
Takes-wrap n c s (err e) c' h = tt
Takes-wrap n c s panic c' h = h

Takes-continue :
    {A B : Type 0} (n : ℕ) (c c' : Conn) (r : Result A) (f : A → State Conn B)
    → Takes n c (r, c')
    → ((a : A) (c'' : Conn) → Takes 0 c'' (f a c''))
    → Takes n c (continue r f c')
Takes-continue {B = B} n c c' (ok a) f h k = later (f a c') (k a c')
  where
    later : (out : Result B × Conn) → Takes 0 c' out → Takes n c out
    later (ok b, d) t = omega arith
    later (err e, d) t = tt
    later (panic, d) t = t
Takes-continue n c c' (err e) f h k = tt
Takes-continue n c c' panic f h k = h

Takes-read_full : (n : ℕ) (c : Conn) → Takes n c (read_full n c)
unfolding read_full
Takes-read_full n c = elim (Bool-cases (leb n (length c.incoming))) [
  | inl e ↦ rw e (omega (arith, length-drop n c.incoming (leb→le n _ e)))
  | inr e ↦ rw e tt
]

Takes-read_payload : (n : ℕ) (c : Conn) → Takes 0 c (read_payload n c)
unfolding read_payload ◌>>=◌
Takes-read_payload n c = elim (Bool-cases (ltb 0 n)) [
  | inl e ↦ rw e (less (read_full n c) (Takes-read_full n c))
  | inr e ↦ rw e (omega arith)
]
  where
    less :
        (out : Result Bytes × Conn) → Takes n c out → Takes 0 c (wrap reading_payload out.0, out.1)
    less (ok b, d) t = omega arith
    less (err e, d) t = tt
    less (panic, d) t = t

Takes-guard : (b : Bool) (s : Stage) (c : Conn) → Takes 0 c (guard b s c)
unfolding ◌>>=◌
Takes-guard true s c = omega arith
Takes-guard false s c = tt

-- A response is at least a header of twelve bytes.
Takes-read_response : (c : Conn) → Takes 12 c (read_response c)
unfolding read_response ◌>>=◌
Takes-read_response c =
    Takes-continue 12 c (read_full 12 c).1 (wrap reading_header (read_full 12 c).0) _
      (Takes-wrap 12 c reading_header (read_full 12 c).0 (read_full 12 c).1 (Takes-read_full 12 c))
      λ raw d.
        Takes-continue 0 d
          (guard (leb (decode_header raw).payload_len max_msg_len) payload_too_large d).1 _ _
          (Takes-guard _ _ d)
          λ _ d'.
            Takes-continue 0 d' (read_payload (decode_header raw).payload_len d').1 _ _
              (Takes-read_payload _ d') λ payload d''. omega arith

stream_loop-Returns :
    (fuel id : ℕ) (acc : List Bytes) (c : Client)
    → length c.conn.incoming < fuel
    → Returns (stream_loop fuel id acc c).0
unfolding stream_loop ◌>>=◌
stream_loop-Returns zero id acc c h = absurd (omega arith)
stream_loop-Returns (suc fuel) id acc c h =
    step (read_response c.conn) (Takes-read_response c.conn)
      λ r d less. stream_loop-Returns fuel id (acc ++ (r.1 ∷ [])) (record c { conn = d }) less
  where
    step :
        (out : Result (ResponseHeader × Bytes) × Conn)
        → Takes 12 c.conn out
        → ((r : ResponseHeader × Bytes) (d : Conn)
            → length d.incoming < fuel
            → Returns (stream_loop fuel id (acc ++ (r.1 ∷ [])) (record c { conn = d })).0)
        → Returns
            (continue out.0
              (λ r.
                guard (r.0.for_id == id) id_mismatch
                >> (guard (r.0.status == 0) grout_status
                    >> branch
                        (r.0.payload_len == 0)
                        (pure acc)
                        (stream_loop fuel id (acc ++ (r.1 ∷ [])))))
              (record c { conn = out.1 })).0
    step (ok r, d) t ih = rounds (r.0.for_id == id) (r.0.status == 0) (r.0.payload_len == 0)
      where
        rounds :
            (b b' b'' : Bool)
            → Returns
                ((guard b id_mismatch
                    >> (guard b' grout_status
                        >> branch b'' (pure acc) (stream_loop fuel id (acc ++ (r.1 ∷ [])))))
                  (record c { conn = d })).0
        rounds false b' b'' = tt
        rounds true false b'' = tt
        rounds true true true = tt
        rounds true true false = ih r d (omega arith)
    step (err e, d) t ih = tt
    step (panic, d) t ih = t

write_next-Returns :
    (b : Bytes) (faults : List (Option Error)) (c : Conn) → Returns (write_next faults b c).0
unfolding write_next
write_next-Returns b [] c = tt
write_next-Returns b (none ∷ later) c = tt
write_next-Returns b (some x ∷ later) c = tt

write_request-Returns :
    (id type : ℕ) (payload : Bytes) (c : Conn) → Returns (write_request id type payload c).0
unfolding write_request write ◌>>=◌
write_request-Returns id type payload c =
    Returns-bind (wrapped writing_header (write _)) _ c
      (Returns-wrap writing_header _ (write_next-Returns _ c.faults c))
      λ _ d.
        Returns-branch (ltb 0 (length payload)) (wrapped writing_payload (write payload)) (pure tt)
          d (Returns-wrap writing_payload _ (write_next-Returns payload d.faults d)) tt

-- Of a peer that closes the connection some time: whatever it sent before, the fuel is enough for the
-- loop to return.
request_stream-Returns :
    (type : ℕ) (payload : Bytes) (c : Client) → Returns (request_stream type payload c).0
unfolding request_stream next_id ◌>>=◌
request_stream-Returns type payload c =
    let id = (c.req_id + 1) % 2 ^ 32 in
    Returns-bind (on_conn (write_request id type payload)) _ (record c { req_id = id })
      (write_request-Returns id type payload c.conn)
      λ _ d. stream_loop-Returns (suc (length d.conn.incoming)) id [] d (omega arith)
