-- ===== src/Serial/Accepts.antt =====
-- What a response of the serial exchange was taken from.
use odp_platform_common.Common.{ℕ, false, List, none, some, drop, ◌≡◌}
use odp_platform_common.Common.Result.{Result, ok}
use odp_platform_common.Serial.Port.{Port, Mctp, Relay}
use odp_platform_common.Serial.Header.{OdpHeader, parse_odp_header}
use odp_platform_common.Serial.Send.{
  Destination, u8_of, odp_message_type, read_framed_packet, buffer_sz, transmit,
}

module _ (P : Port) (M : Mctp) (R : Relay) where
  open R use {Response, deserialize}

  -- The packets read one after the other from a state of the port, until one completes this message.
  pub data Received : M.Context → P.St → ℕ → List ℕ → P.St → Type 0 where
    completed :
        {ctx next : M.Context} {s t : P.St} {packet body : List ℕ} {message_type : ℕ}
        → read_framed_packet P buffer_sz s ≡ (t, ok packet)
        → M.deserialize_packet ctx packet ≡ ok (next, some (message_type, body))
        → Received ctx s message_type body t
    partial :
        {ctx next : M.Context} {s t u : P.St} {packet body : List ℕ} {message_type : ℕ}
        → read_framed_packet P buffer_sz s ≡ (t, ok packet)
        → M.deserialize_packet ctx packet ≡ ok (next, none)
        → Received next t message_type body u
        → Received ctx s message_type body u

  -- A message received from this state of the port, of the ODP type, whose header is a response, not an
  -- error, of this service, and from whose payload the response was read.
  pub record Answer (dst : Destination) (ctx : M.Context) (s t : P.St) (response : Response)
      : Type 0 where
    pub message_type : ℕ
    pub body : List ℕ
    pub header : OdpHeader
    pub received : Received ctx s message_type body t
    pub odp : message_type ≡ odp_message_type
    pub parsed : parse_odp_header body ≡ ok header
    pub answers : header.is_request ≡ false
    pub addressed : header.service_id ≡ u8_of dst
    pub succeeded : header.is_error ≡ false
    pub read : deserialize header.message_id (drop 4 body) ≡ ok response

  -- A successful exchange: the request was serialized, and transmitted from a state in which the port was
  -- not poisoned; the response answers from the port's state after it.
  abbrev pub Exchanged : Destination → R.Request → P.St → P.St → Response → Type 0
  Exchanged dst request s t response =
      (payload : List ℕ) × (sent : P.St) × (R.serialize request ≡ ok payload)
      × (P.is_poisoned s ≡ false)
      × (transmit P M R dst request payload s ≡ (sent, ok tt))
      × Answer dst M.new sent t response
