-- ===== src/Persist/File.antt =====
-- src/persist.c: `persist_save` and `persist_load`, with the calls of the C library as parameters.
use redis_server_c.Prelude.{
  ℕ, Bool, true, false, not, ◌&&◌, ◌++◌, Bytes, codes, length, ◌==◌, if◌then◌else◌,
}
use redis_server_c.Prelude.Int.{ℤ, pos, pos_part, ltb_ℤ}
use redis_server_c.Store.State.{Store}
use redis_server_c.Persist.Status.{PersistStatus, persist_ok, persist_err_io, persist_err_format}
use redis_server_c.Persist.Image.{snapshot}
use redis_server_c.Persist.Load.{Loaded, loaded, load_bytes}

-- The calls of <stdio.h> on a file system of type `F`. A stream is named by its path.
pub record Stdio (F : Type 0) : Type 0 where
  pub fopen_wb : F → Bytes → F × Bool
  pub fwrite : F → Bytes → Bytes → F × ℕ
  pub fflush : F → Bytes → F × Bool
  pub fclose : F → Bytes → F
  pub rename : F → Bytes → Bytes → F × Bool
  pub remove : F → Bytes → F
  pub fopen_rb : F → Bytes → Bool
  pub ftell_end : F → Bytes → ℤ
  pub fread : F → Bytes → ℕ → Bytes

abbrev pub tmp_path : Bytes → Bytes
tmp_path path = path ++ codes ".tmp"

module _ {F : Type 0} (io : Stdio F) where
  -- From the open stream on.
  unfoldable pub write_and_rename : F → Bytes → Bytes → F × PersistStatus
  write_and_rename f bytes path =
      let tmp = tmp_path path in
      let (f2, written) = io.fwrite f tmp bytes in
      let (f3, flushed) = io.fflush f2 tmp in
      let f4 = io.fclose f3 tmp in
      elim ((written == length bytes) && flushed) [
        | false ↦ (io.remove f4 tmp, persist_err_io)
        | true ↦
            let (f5, renamed) = io.rename f4 tmp path in
            if renamed then (f5, persist_ok) else (io.remove f5 tmp, persist_err_io)
      ]

  unfoldable pub persist_save : F → Store → Bytes → ℤ → F × PersistStatus
  persist_save f s path now =
      let (f1, opened) = io.fopen_wb f (tmp_path path) in
      elim opened [
        | false ↦ (f1, persist_err_io)
        | true ↦ write_and_rename f1 (snapshot s now) path
      ]

  unfoldable pub persist_load : F → Store → Bytes → ℤ → Loaded
  persist_load f s path now =
      let fsz = io.ftell_end f path in
      let bytes = io.fread f path (pos_part fsz) in
      if not (io.fopen_rb f path)
      then loaded s persist_err_io
      else if ltb_ℤ fsz (pos 20)
      then loaded s persist_err_format
      else if not (length bytes == pos_part fsz)
      then loaded s persist_err_io
      else load_bytes s bytes now
