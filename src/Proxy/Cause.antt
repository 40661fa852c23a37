-- ===== src/Proxy/Cause.antt =====
-- `DisconnectCause` of src/proxy.rs.
pub data DisconnectCause : Type 0 where
  client server timeout error unknown : DisconnectCause
