-- ===== src/ErrorCode.antt =====
-- The results of src/libaacs/aacs.h: `AACS_SUCCESS` and the `AACS_ERROR_` codes, -1 to -9.
pub data ErrorCode : Type 0 where
  success corrupted_disc no_config no_pk no_cert cert_revoked mmc_open mmc_failure no_dk
        unknown_error :
      ErrorCode
