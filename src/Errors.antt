-- ===== src/Errors.antt =====
-- The kernel's error codes (src/include/constants.h), and a call that returns a status and writes
-- its results only if that is 0.
use harvac.Prelude.{ℕ}

abbrev pub err_not_found : ℕ
err_not_found = 1

abbrev pub err_access_denied : ℕ
err_access_denied = 2

abbrev pub err_no_memory : ℕ
err_no_memory = 5

abbrev pub err_disk_error : ℕ
err_disk_error = 6

abbrev pub err_file_exists : ℕ
err_file_exists = 7

-- The results of a call with status 0, or its status.
pub data Result (A : Type 0) : Type 0 where
  ok : A → Result A
  err : ℕ → Result A
