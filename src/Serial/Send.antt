-- ===== src/Serial/Send.antt =====
-- Reading one framed packet, and one exchange with the controller (ec/test-lib/src/serial.rs).
use odp_platform_common.Common.{
  ℕ, zero, suc, true, false, not, ◌||◌, List, [], ◌∷◌, ◌++◌, none, some, drop, ◌==◌, if◌then◌else◌,
}
use odp_platform_common.Common.Result.{Result, ok, err, map_err}
use odp_platform_common.Common.Result
use odp_platform_common.Common.Action.{Action, ◌>>=◌, ◌>>◌, lift}
use odp_platform_common.Serial.Port.{
  Error, poisoned, frame_too_long, error_response, unexpected_response, Fault, reported,
  out_of_fuel, Port, Mctp, Relay,
}
use odp_platform_common.Serial.Header.{OdpHeader, build_odp_header, parse_odp_header}

pub data Destination : Type 0 where
  battery thermal time_alarm : Destination

unfoldable pub u8_of : Destination → ℕ
u8_of battery = 0x08
u8_of thermal = 0x09
u8_of time_alarm = 0x0b

abbrev pub odp_message_type : ℕ
odp_message_type = 0x7d

abbrev pub serial_end_flag : ℕ
serial_end_flag = 0x7e

abbrev pub buffer_sz : ℕ
buffer_sz = 256

-- An error of the source ends the run.
abbrev pub report : {S A : Type 0} → Action S Error A → Action S Fault A
report m s = let (t, r) = m s in (t, map_err reported r)

module _ (P : Port) where
  open P use {St, read_byte}

  -- The loop of `read_framed_packet`, by the room left in the buffer, with the bytes read so far.
  unfoldable pub read_rest : ℕ → List ℕ → Action St Error (List ℕ)
  read_rest zero filled = lift (err frame_too_long)
  read_rest (suc room) filled = do
    byte ← read_byte
    elim (byte == serial_end_flag) [
      | true ↦ lift (ok (filled ++ byte ∷ []))
      | false ↦ read_rest room (filled ++ byte ∷ [])
    ]

  unfoldable pub read_framed_packet : ℕ → Action St Error (List ℕ)
  unfolding read_rest
  read_framed_packet size = read_rest size []

  -- `while let Some(pkt) = state.next()`.
  unfoldable pub write_packets : List (Result (List ℕ) Error) → Action St Error (Unit {0})
  write_packets [] = lift (ok tt)
  write_packets (packet ∷ packets) = do
    bytes ← lift packet
    P.write_all bytes
    write_packets packets

  module _ (M : Mctp) (R : Relay) where
    open R use {Request, Response, deserialize}

    unfoldable pub accept_header : Destination → List ℕ → OdpHeader → Result Response Error
    unfolding u8_of
    accept_header dst body h =
        if h.is_request || not (h.service_id == u8_of dst)
        then err unexpected_response
        else if h.is_error
        then err (error_response h.service_id h.message_id)
        else deserialize h.message_id (drop 4 body)

    -- The tests of a reassembled message.
    unfoldable pub accept : Destination → ℕ → List ℕ → Result Response Error
    unfolding accept_header parse_odp_header
    accept dst message_type body =
        if not (message_type == odp_message_type)
        then err unexpected_response
        else Result.◌>>=◌ (parse_odp_header body) (accept_header dst body)

    -- The loop that reads packets until one completes a message.
    unfoldable pub receive : ℕ → Destination → M.Context → Action St Fault Response
    unfolding read_framed_packet accept
    receive zero dst ctx = lift (err out_of_fuel)
    receive (suc fuel) dst ctx = do
      packet ← report (read_framed_packet buffer_sz)
      (next, message) ← report (lift (M.deserialize_packet ctx packet))
      elim message [
        | none ↦ receive fuel dst next
        | some (message_type, body) ↦ report (lift (accept dst message_type body))
      ]

    -- What is sent of a request, up to the flush.
    unfoldable pub transmit : Destination → Request → List ℕ → Action St Error (Unit {0})
    unfolding write_packets build_odp_header u8_of
    transmit dst request body = do
      P.clear_input
      packets ←
          lift
            (M.serialize_packet (build_odp_header true (u8_of dst) (R.discriminant request)) body)
      write_packets packets
      P.flush

    -- Behind the port's lock.
    abbrev pub exchange : ℕ → Destination → Request → List ℕ → Action St Fault Response
    exchange fuel dst request body = do report (transmit dst request body); receive fuel dst M.new

    unfoldable pub send : ℕ → Destination → Request → Action St Fault Response
    unfolding transmit receive
    send fuel dst request = do
      body ← report (lift (R.serialize request))
      λ st.
          if P.is_poisoned st
          then (st, err (reported poisoned))
          else exchange fuel dst request body st
