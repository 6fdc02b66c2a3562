-- ===== src/Egrpc.antt =====
-- cppkg/egrpc: the handlers of asynchronous calls, on both sides, as machines that react to one
-- event of a completion queue at a time.
pub mod Server
pub mod ServerStream
pub mod ClientStream
pub mod Client
pub mod Wait
pub mod Calls
mod Tests

-- `AsyncServerStreamCall::CallStatus` and `AsyncClientStreamHandler::CallStatus`.
pub data CallStatus : Type 0 where
  startup process finish : CallStatus
