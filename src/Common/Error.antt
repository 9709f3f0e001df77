-- ===== src/Common/Error.antt =====
-- The error codes of src/common/eebus_errors.h.
use openeebus.Prelude.{Bool, true, false}

pub data EebusError : Type 0 where
  ok no_change pending init deinit activate deactivate thread : EebusError
  input input_type input_size input_argument input_argument_null : EebusError
  input_argument_out_of_range : EebusError
  communication_begin communication communication_end communication_busy : EebusError
  communication_upload : EebusError
  memory memory_allocate : EebusError
  file_system file_system_access file_system_no_file file_system_remove : EebusError
  file_system_copy : EebusError
  time other unknown parse not_implemented not_supported not_available : EebusError
  compress_file other_end invalid : EebusError

-- The test `err == kEebusErrorOk`.
unfoldable pub is_ok : EebusError → Bool
is_ok ok = true
is_ok _ = false
