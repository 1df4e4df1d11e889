-- ===== src/Frame.antt =====
-- include/flowq/quic/frame.hpp: the frames of a packet payload. A `flowq::buffer`, a `std::string`
-- and a `std::array` of bytes are lists of numbers.
pub mod Encode
pub mod Decode
pub mod Cursor
pub mod WellFormed
pub mod RoundTrip
pub mod Payload
pub mod Takes
pub mod Sendable
pub mod SendableLong
pub mod Progress
mod Examples
use flow_q.Prelude.{ℕ, Bool, List, Option}

pub record ConnectionId : Type 0 where
  pub bytes : List ℕ

pub record ConnectionCloseFrame : Type 0 where
  pub error_code : ℕ
  pub frame_type : ℕ
  pub reason : List ℕ

pub record ApplicationCloseFrame : Type 0 where
  pub error_code : ℕ
  pub reason : List ℕ

pub record ResetStreamFrame : Type 0 where
  pub stream_id : ℕ
  pub application_error_code : ℕ
  pub final_size : ℕ

pub record StopSendingFrame : Type 0 where
  pub stream_id : ℕ
  pub application_error_code : ℕ

pub record AckRange : Type 0 where
  pub gap : ℕ
  pub length : ℕ

pub record AckEcnCounts : Type 0 where
  pub ect0 : ℕ
  pub ect1 : ℕ
  pub ce : ℕ

pub record AckFrame : Type 0 where
  pub largest_acknowledged : ℕ
  pub ack_delay : ℕ
  pub first_ack_range : ℕ
  pub ranges : List AckRange
  pub ecn_counts : Option AckEcnCounts

pub record CryptoFrame : Type 0 where
  pub offset : ℕ
  pub bytes : List ℕ

pub record StreamFrame : Type 0 where
  pub stream_id : ℕ
  pub offset : ℕ
  pub offset_present : Bool
  pub length_present : Bool
  pub fin : Bool
  pub bytes : List ℕ

pub record MaxStreamDataFrame : Type 0 where
  pub stream_id : ℕ
  pub maximum_stream_data : ℕ

pub record StreamDataBlockedFrame : Type 0 where
  pub stream_id : ℕ
  pub maximum_stream_data : ℕ

pub data StreamDirection : Type 0 where
  bidirectional unidirectional : StreamDirection

pub record MaxStreamsFrame : Type 0 where
  pub direction : StreamDirection
  pub maximum_streams : ℕ

pub record StreamsBlockedFrame : Type 0 where
  pub direction : StreamDirection
  pub maximum_streams : ℕ

pub record NewConnectionIdFrame : Type 0 where
  pub sequence_number : ℕ
  pub retire_prior_to : ℕ
  pub conn_id : ConnectionId
  pub stateless_reset_token : List ℕ

-- The alternatives of the `std::variant`.
pub data Frame : Type 0 where
  padding : ℕ → Frame
  ping : Frame
  connection_close : ConnectionCloseFrame → Frame
  application_close : ApplicationCloseFrame → Frame
  reset_stream : ResetStreamFrame → Frame
  stop_sending : StopSendingFrame → Frame
  ack : AckFrame → Frame
  crypto : CryptoFrame → Frame
  new_token : List ℕ → Frame
  stream : StreamFrame → Frame
  max_data : ℕ → Frame
  max_stream_data : MaxStreamDataFrame → Frame
  data_blocked : ℕ → Frame
  stream_data_blocked : StreamDataBlockedFrame → Frame
  max_streams : MaxStreamsFrame → Frame
  streams_blocked : StreamsBlockedFrame → Frame
  new_connection_id : NewConnectionIdFrame → Frame
  retire_connection_id : ℕ → Frame
  handshake_done : Frame
  path_challenge : List ℕ → Frame
  path_response : List ℕ → Frame
