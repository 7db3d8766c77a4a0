-- ===== src/Base/Failure.antt =====
-- A call that may panic: its value, or the cause of the panic.

pub data Panic : Type 0 where
  zero_capacity : Panic  -- "capacity must be greater than zero"
  capacity_too_large : Panic  -- "capacity too large to round up to a power of two"
  message_too_long : Panic  -- "message length … exceeds max_message_len"
  slack_too_large : Panic  -- "slack must be less than the capacity"
  zero_sized : Panic  -- "zero-sized element types are not supported"

pub data Outcome {ℓ} (A : Type ℓ) : Type ℓ where
  returns : A → Outcome A
  panics : Panic → Outcome A
