-- ===== src/Response.antt =====
-- src/main/c/seasocks: response codes, and how a response's body is sent.
pub mod Code

-- TransferEncoding.h.
pub data TransferEncoding : Type 0 where
  raw chunked : TransferEncoding
