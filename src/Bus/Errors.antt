-- ===== src/Bus/Errors.antt =====
-- `ErrorCode`, `BusError` and `BusError::code` of crates/lmux-bus/src/error.rs. The human-readable
-- text of an error is a type parameter: each component gives the data that its texts are made from.
use lmux.Prelude.{ℕ}

pub data ErrorCode : Type 0 where
  frame_too_large version_mismatch unknown_kind peer_denied bad_request domain : ErrorCode
  unauthorized grant_denied transcript_unavailable stale_sequence user_pinned_title io : ErrorCode

pub data BusError (Message : Type 0) : Type 0 where
  frame_too_large : ErrorCode → ℕ → ℕ → BusError Message
  version_mismatch : ErrorCode → ℕ → ℕ → BusError Message
  unknown_kind : ErrorCode → Message → BusError Message
  peer_denied : ErrorCode → BusError Message
  bad_request : Message → BusError Message
  domain : Message → BusError Message
  unauthorized : Message → BusError Message
  grant_denied : Message → BusError Message
  transcript_unavailable : Message → BusError Message
  stale_sequence : Message → BusError Message
  user_pinned_title : Message → BusError Message
  json : Message → BusError Message
  io : Message → BusError Message

unfoldable pub code : {M : Type 0} → BusError M → ErrorCode
code (BusError.frame_too_large c len max) = c
code (BusError.version_mismatch c got expected) = c
code (BusError.unknown_kind c kind_received) = c
code (BusError.peer_denied c) = c
code (BusError.bad_request m) = ErrorCode.bad_request
code (BusError.domain m) = ErrorCode.domain
code (BusError.unauthorized m) = ErrorCode.unauthorized
code (BusError.grant_denied m) = ErrorCode.grant_denied
code (BusError.transcript_unavailable m) = ErrorCode.transcript_unavailable
code (BusError.stale_sequence m) = ErrorCode.stale_sequence
code (BusError.user_pinned_title m) = ErrorCode.user_pinned_title
code (BusError.json m) = ErrorCode.bad_request
code (BusError.io m) = ErrorCode.io
