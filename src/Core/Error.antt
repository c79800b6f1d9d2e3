-- ===== src/Core/Error.antt =====
-- include/core/error.h: the error codes. Their texts, and the log of src/core, are not modelled.
pub data ErrorCode : Type 0 where
  ok : ErrorCode
  nomem : ErrorCode
  io : ErrorCode
  invalid_arg : ErrorCode
  overflow : ErrorCode
  not_found : ErrorCode
  unsupported : ErrorCode
