-- ===== src/Tests/OnWire.antt =====
-- The protocol and the client at concrete inputs.
use grout_cni.Client.Stopping.{refused, items_sent, request_stream-Stops}
use grout_cni.Base.{Bytes, grout_status, new, ok, err, ◌≡◌, refl, List, [], ◌∷◌, ◌++◌, arith}
use grout_cni.Wire.{Conn, api_version, write_request}
use grout_cni.Wire.RoundTrip.{response, parse_request, write_request-parse_request}
use grout_cni.Client.{Client, request, request_stream}
use grout_cni.Client.Exchange.{after_exchange, verdict, request-response}

-- A connection on which the peer has sent `b`.
abbrev hearing : Bytes → Conn
hearing b = record { incoming = b; sent = []; faults = [] }

abbrev at_seven : Bytes → Client
at_seven b = record { conn = hearing b; req_id = 7 }

write_request-parse_request_example :
    (bytes : Bytes) × (write_request 8 api_version (1 ∷ 2 ∷ []) (hearing [])
      ≡ (ok tt, record (hearing []) { sent = bytes }))
    × (parse_request (bytes ++ (9 ∷ []))
        ≡ (record { id = 8; type = api_version; payload = 1 ∷ 2 ∷ [] }, 9 ∷ []))
write_request-parse_request_example =
    write_request-parse_request 8 api_version (1 ∷ 2 ∷ []) (9 ∷ []) (hearing []) (omega arith)
      (omega arith) (omega arith) refl

abbrev answered : Bytes
answered = response 8 0 (1 ∷ 2 ∷ []) ++ (9 ∷ [])

request-response_example :
    request 5 (3 ∷ []) (at_seven answered)
    ≡ (verdict 8 8 0 (1 ∷ 2 ∷ []), after_exchange (at_seven answered) 5 (3 ∷ []) (9 ∷ []))
request-response_example =
    request-response 5 8 0 (3 ∷ []) (1 ∷ 2 ∷ []) (9 ∷ []) (at_seven answered) (omega arith)
      (omega arith) (omega arith) (omega arith) refl refl

abbrev two_items : List Bytes
two_items = (1 ∷ []) ∷ (2 ∷ 3 ∷ []) ∷ []

-- Two items, a status, and more of the same behind it.
abbrev refusing : Bytes
refusing = response 8 17 [] ++ (response 8 0 (4 ∷ []) ++ response 8 0 [])

abbrev breaking : Bytes
breaking = items_sent 8 two_items ++ refusing

request_stream-Stops_example : request_stream 5 (3 ∷ []) (at_seven breaking) ≡ (
  err (new grout_status),
  after_exchange (at_seven breaking) 5 (3 ∷ []) (response 8 0 (4 ∷ []) ++ response 8 0 []),
)
request_stream-Stops_example =
    request_stream-Stops 5 (3 ∷ []) two_items refusing (response 8 0 (4 ∷ []) ++ response 8 0 [])
      (err (new grout_status)) (at_seven breaking) (omega arith)
      ((omega arith, omega arith), ((omega arith, omega arith), tt))
      (refused 17 [] (response 8 0 (4 ∷ []) ++ response 8 0 []) (λ e. omega arith) (omega arith)
        (omega arith))
      refl refl
