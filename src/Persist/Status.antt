-- ===== src/Persist/Status.antt =====
-- include/persist.h: the status codes, and their texts of src/persist.c.
use redis_server_c.Prelude.{Bytes, codes}

-- `persist_status_t`
pub data PersistStatus : Type 0 where
  persist_ok persist_err_io persist_err_format persist_err_corrupt : PersistStatus

unfoldable pub persist_strerror : PersistStatus → Bytes
persist_strerror persist_ok = codes "OK"
persist_strerror persist_err_io = codes "I/O error"
persist_strerror persist_err_format = codes "unrecognized file format"
persist_strerror persist_err_corrupt = codes "checksum mismatch (file corrupted)"
