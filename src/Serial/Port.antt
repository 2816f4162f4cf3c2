-- ===== src/Serial/Port.antt =====
-- The serial port, the MCTP packet context and the messages of one service, which
-- ec/test-lib/src/serial.rs takes from the crates serialport, mctp_rs and embedded_services; and
-- the errors of the serial source, one constructor for each text that it formats.
use odp_platform_common.Common.{ℕ, Bool, List, Option}
use odp_platform_common.Common.Result.{Result}

pub data Error : Type 0 where
  io poisoned : Error
  header_too_short frame_too_long : Error
  packet_refused : Error
  -- The controller's error, with its service and message.
  error_response : ℕ → ℕ → Error
  serialization : Error
  unexpected_response unsupported : Error

-- How a run of the model stops: by an error of the source, or with the fuel of its loop used up.
pub data Fault : Type 0 where
  reported : Error → Fault
  out_of_fuel : Fault

-- A port whose state also holds what the other end does; a read of a byte fails when none arrives
-- in time.
pub record Port : Type 1 where
  pub St : Type 0
  -- The port's mutex is poisoned.
  pub is_poisoned : St → Bool
  pub clear_input : St → St × Result (Unit {0}) Error
  pub write_all : List ℕ → St → St × Result (Unit {0}) Error
  pub flush : St → St × Result (Unit {0}) Error
  pub read_byte : St → St × Result ℕ Error

-- `MctpPacketContext` over the serial medium.
pub record Mctp : Type 1 where
  pub Context : Type 0
  pub new : Context
  -- The packets of a message of an ODP header and a body, each built when it is asked for.
  pub serialize_packet : List ℕ → List ℕ → Result (List (Result (List ℕ) Error)) Error
  -- The message's type and body, behind its last packet.
  pub deserialize_packet : Context → List ℕ → Result (Context × Option (ℕ × List ℕ)) Error

-- `SerializableMessage`, for the requests and responses of one service.
pub record Relay : Type 1 where
  pub Request : Type 0
  pub Response : Type 0
  pub serialize : Request → Result (List ℕ) Error
  pub discriminant : Request → ℕ
  pub deserialize : ℕ → List ℕ → Result Response Error
