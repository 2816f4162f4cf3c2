-- ===== src/Serial/Tests.antt =====
-- A concrete port, packet context and service, and the properties of the serial source at them.
use odp_platform_common.Common.{
  ℕ, ◌-◌, ◌<◌, ◌≤◌, true, false, List, [], ◌∷◌, ◌++◌, some, length, take, ◌≡◌, ◌↔◌, ap, arith,
}
use odp_platform_common.Common.Result.{Result, ok, err}
use odp_platform_common.Serial.Port.{Error, io, Port, Mctp, Relay}
use odp_platform_common.Serial.Header.{
  build_odp_header, parse_odp_header, parse_odp_header-build_odp_header,
}
use odp_platform_common.Serial.Send.{battery, read_framed_packet, transmit, send}
use odp_platform_common.Serial.Frames.{
  Frame, Reads, RunsDry, Settled, read_framed_packet_iff, send-Settled,
}

abbrev next_byte : List ℕ → List ℕ × Result ℕ Error
next_byte [] = ([], err io)
next_byte (b ∷ rest) = (rest, ok b)

-- A port whose state is the bytes to come.
abbrev port : Port
port = record {
  St = List ℕ;
  is_poisoned = λ s. false;
  clear_input = λ s. (s, ok tt);
  write_all = λ bytes s. (s, ok tt);
  flush = λ s. (s, ok tt);
  read_byte = next_byte;
}

-- One packet for each message.
abbrev packets : Mctp
packets = record {
  Context = Unit;
  new = tt;
  serialize_packet = λ header body. ok (ok (header ++ body ++ 0x7e ∷ []) ∷ []);
  deserialize_packet = λ ctx packet. ok (ctx, some (0x7d, take (length packet - 1) packet));
}

abbrev echo : Relay
echo = record {
  Request = ℕ;
  Response = ℕ × List ℕ;
  serialize = λ request. ok (request ∷ []);
  discriminant = λ request. request;
  deserialize = λ message payload. ok (message, payload);
}

-- The battery's response 5 with the payload 9.
abbrev incoming : List ℕ
incoming = 0 ∷ 8 ∷ 0 ∷ 5 ∷ 9 ∷ 0x7e ∷ 1 ∷ []

parse_odp_header-build_odp_header_example :
    parse_odp_header (build_odp_header true 0x0b 0x8003 ++ 1 ∷ 2 ∷ [])
    ≡ ok (record { is_request = true; service_id = 0x0b; is_error = false; message_id = 3 })
parse_odp_header-build_odp_header_example =
    parse_odp_header-build_odp_header true 0x0b 0x8003 (1 ∷ 2 ∷ []) (omega arith)

read_framed_packet_iff_example :
    (read_framed_packet port 8 incoming ≡ (1 ∷ [], ok (0 ∷ 8 ∷ 0 ∷ 5 ∷ 9 ∷ 0x7e ∷ []))) ↔ (
      Frame port (0 ∷ 8 ∷ 0 ∷ 5 ∷ 9 ∷ 0x7e ∷ [])
      × (6 ≤ 8)
      × Reads port incoming (0 ∷ 8 ∷ 0 ∷ 5 ∷ 9 ∷ 0x7e ∷ []) (1 ∷ []))
read_framed_packet_iff_example =
    read_framed_packet_iff port 8 incoming (1 ∷ []) (0 ∷ 8 ∷ 0 ∷ 5 ∷ 9 ∷ 0x7e ∷ [])

port-RunsDry : RunsDry port length
port-RunsDry [] t b e = cc
port-RunsDry (c ∷ rest) t b e = omega (arith, ap (λ r. length r.0) e)

transmit-port :
    (body t : List ℕ)
    → transmit port packets echo battery 5 body incoming ≡ (t, ok tt)
    → length t < 9
unfolding transmit
transmit-port body t e = omega (arith, ap (λ r. length r.0) e)

send-Settled_example : Settled (send port packets echo 9 battery 5 incoming).1
send-Settled_example =
    send-Settled port length port-RunsDry packets echo 9 battery 5 incoming transmit-port
