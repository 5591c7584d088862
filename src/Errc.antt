-- ===== src/Errc.antt =====
-- include/xsl/error.h: the `std::errc` values that the modelled code returns, and `Expected`.
use Prim.Native.Nat.{ℕ}

-- `ok` is `errc{}`.
pub data Errc : Type 0 where
  ok : Errc
  invalid_argument : Errc
  illegal_byte_sequence : Errc
  resource_unavailable_try_again : Errc
  io_error : Errc
  no_such_file_or_directory : Errc
  function_not_supported : Errc
  operation_not_permitted : Errc
  protocol_error : Errc
  not_connected : Errc
  no_message : Errc
  -- `errc(errno)` after a system call
  from_errno : ℕ → Errc

-- `Expected<T, errc>`
pub data Expected {ℓ} (A : Type ℓ) : Type ℓ where
  value : A → Expected A
  unexpected : Errc → Expected A
