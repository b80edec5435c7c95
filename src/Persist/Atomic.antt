-- ===== src/Persist/Atomic.antt =====
-- src/persist.c: `persist_save` replaces the file at the path by a whole snapshot, or leaves it.
use redis_server_c.Prelude.{
  ℕ, ◌^◌, ◌≤◌, ◌<◌, ◌≡◌, ◌≢◌, ◌⊎◌, inl, inr, refl, sym, ap, ◌∙◌, true, false, ◌&&◌, [], ◌∷◌, Option,
  some, arith, Bytes, length, take, length-append, take_all, ◌==◌, Bool-cases,
}
use redis_server_c.Prelude.Int.{ℤ, pos}
use redis_server_c.Store.State.{Store}
use redis_server_c.Store.State.Inv.{IsValid}
use redis_server_c.Store.Ops.{store_create, entries}
use redis_server_c.Persist.Status.{PersistStatus, persist_ok, persist_err_io}
use redis_server_c.Persist.Image.{snapshot}
use redis_server_c.Persist.Load.{loaded, load_bytes}
use redis_server_c.Persist.Format.{contents, fresh, snapshot-sealed}
use redis_server_c.Persist.Restore.{HasTimes}
use redis_server_c.Persist.RoundTrip.{length-sealed, length-contents}
use redis_server_c.Persist.Survives.{Survived, load-snapshot}
use redis_server_c.Persist.File.{Stdio, tmp_path, write_and_rename, persist_save, persist_load}

-- What the C library documents of the calls that write, in terms of the content of each file.
pub record Writes {F : Type 0} (io : Stdio F) (file : F → Bytes → Option Bytes) : Type 0 where
  pub fopen_elsewhere : (f : F) (t p : Bytes) → p ≢ t → file (io.fopen_wb f t).0 p ≡ file f p
  pub fwrite_elsewhere : (f : F) (t b p : Bytes) → p ≢ t → file (io.fwrite f t b).0 p ≡ file f p
  pub fflush_elsewhere : (f : F) (t p : Bytes) → p ≢ t → file (io.fflush f t).0 p ≡ file f p
  pub fclose_elsewhere : (f : F) (t p : Bytes) → p ≢ t → file (io.fclose f t) p ≡ file f p
  pub remove_elsewhere : (f : F) (t p : Bytes) → p ≢ t → file (io.remove f t) p ≡ file f p
  -- A new stream, all of whose bytes are accepted and flushed, is a file of these bytes.
  pub stored :
      (f : F) (t b : Bytes)
      → (io.fopen_wb f t).1 ≡ true
      → (io.fwrite (io.fopen_wb f t).0 t b).1 ≡ length b
      → (io.fflush (io.fwrite (io.fopen_wb f t).0 t b).0 t).1 ≡ true
      → file (io.fclose (io.fflush (io.fwrite (io.fopen_wb f t).0 t b).0 t).0 t) t ≡ some b
  pub renames :
      (f : F) (t p : Bytes) → (io.rename f t p).1 ≡ true → file (io.rename f t p).0 p ≡ file f t
  pub rename_fails :
      (f : F) (t p : Bytes) → (io.rename f t p).1 ≡ false → file (io.rename f t p).0 p ≡ file f p

-- What it documents of the calls that read a regular file.
pub record Reads {F : Type 0} (io : Stdio F) (file : F → Bytes → Option Bytes) : Type 0 where
  pub opens : (f : F) (p b : Bytes) → file f p ≡ some b → io.fopen_rb f p ≡ true
  pub tells : (f : F) (p b : Bytes) → file f p ≡ some b → io.ftell_end f p ≡ pos (length b)
  pub reads : (f : F) (p b : Bytes) (n : ℕ) → file f p ≡ some b → io.fread f p n ≡ take n b

pub tmp_path-other : (path : Bytes) → path ≢ tmp_path path
tmp_path-other path e = omega (arith, ap length e, length-append path (46 ∷ 116 ∷ 109 ∷ 112 ∷ []))

-- Done with the whole of the bytes at the path, or failed with the path's file as it was.
abbrev pub Settled :
    {F : Type 0}
    → (F → Bytes → Option Bytes)
    → Option Bytes
    → Bytes
    → Bytes
    → F × PersistStatus
    → Type 0
Settled file before bytes path (f, status) =
    ((status ≡ persist_ok) × (file f path ≡ some bytes))
    ⊎ ((status ≡ persist_err_io) × (file f path ≡ before))

module _ {F : Type 0} (io : Stdio F) (file : F → Bytes → Option Bytes) (laws : Writes io file)
    (path : Bytes) where
  abbrev tmp : Bytes
  tmp = tmp_path path

  write_and_rename-Settled :
      (f : F) (bytes : Bytes)
      → (io.fopen_wb f tmp).1 ≡ true
      → Settled file (file f path) bytes path (write_and_rename io (io.fopen_wb f tmp).0 bytes path)
  unfolding write_and_rename
  write_and_rename-Settled f bytes opened =
      let f1 = (io.fopen_wb f tmp).0 in
      let f2 = (io.fwrite f1 tmp bytes).0 in
      let f3 = (io.fflush f2 tmp).0 in
      let f4 = io.fclose f3 tmp in
      let other = tmp_path-other path in
      let same : file f4 path ≡ file f path =
        laws.fclose_elsewhere f3 tmp path other
        ∙ laws.fflush_elsewhere f2 tmp path other
        ∙ laws.fwrite_elsewhere f1 tmp bytes path other
        ∙ laws.fopen_elsewhere f tmp path other in
      elim (Bool-cases (((io.fwrite f1 tmp bytes).1 == length bytes) && (io.fflush f2 tmp).1)) [
        | inr short ↦
            rw (short, write_and_rename)
              (inr (refl, laws.remove_elsewhere f4 tmp path other ∙ same))
        | inl whole ↦ elim (Bool-cases (io.rename f4 tmp path).1) [
          | inr stays ↦
              let f5 = (io.rename f4 tmp path).0 in
              rw (whole, stays, write_and_rename)
                (inr (
                  refl,
                  laws.remove_elsewhere f5 tmp path other
                      ∙ laws.rename_fails f4 tmp path stays
                      ∙ same,
                ))
          | inl moved ↦
              let stored : file f4 tmp ≡ some bytes =
                laws.stored f tmp bytes opened (ground (arith, whole)) (ground (arith, whole)) in
              rw (whole, moved, write_and_rename)
                (inl (refl, laws.renames f4 tmp path moved ∙ stored))
        ]
      ]

  -- A save either succeeds, and the whole snapshot is at the path, or fails with an I/O error, and
  -- the file at the path is the one from before, whichever call fails; the C library is as
  -- documented.
  pub persist_save-Settled :
      (f : F) (s : Store) (now : ℤ)
      → Settled file (file f path) (snapshot s now) path (persist_save io f s path now)
  unfolding persist_save
  persist_save-Settled f s now = elim (Bool-cases (io.fopen_wb f tmp).1) [
    | inr shut ↦
        rw (shut, persist_save) (inr (refl, laws.fopen_elsewhere f tmp path (tmp_path-other path)))
    | inl opened ↦ rw (opened, persist_save) (write_and_rename-Settled f (snapshot s now) opened)
  ]

-- A file that can be read is judged by its bytes.
pub persist_load_file :
    {F : Type 0} (io : Stdio F) (file : F → Bytes → Option Bytes)
    → Reads io file
    → (f : F) (s : Store) (path bytes : Bytes) (now : ℤ) → file f path ≡ some bytes
    → 20 ≤ length bytes
    → persist_load io f s path now ≡ load_bytes s bytes now
unfolding persist_load
persist_load_file io file laws f s path bytes now there enough =
    let size = laws.tells f path bytes there in
    let opened = laws.opens f path bytes there in
    let whole : io.fread f path (length bytes) ≡ bytes =
      laws.reads f path bytes (length bytes) there ∙ take_all bytes in
    rw (opened, persist_load) (rw size (rw whole (ground (arith, enough))))

ok_or_failed : ¬ (persist_ok ≡ persist_err_io)
ok_or_failed e = cc

length-snapshot : (s : Store) (now : ℤ) → 20 ≤ length (snapshot s now)
length-snapshot s now =
    let es = fresh now (entries s) in
    rw (snapshot-sealed s now) (omega (arith, length-sealed (contents es), length-contents es))

-- When `persist_save` succeeds for a valid store with int64_t expiries and a snapshot below 2 ^ 63
-- bytes, a load of the file into a fresh store succeeds, and that store is valid and has exactly
-- the keys that have not expired, at the save or the load; the C library is as documented.
pub save-load :
    {F : Type 0} (io : Stdio F) (file : F → Bytes → Option Bytes)
    → Writes io file
    → Reads io file
    → (f : F) (s : Store) (path : Bytes) (saved loaded_at : ℤ) → IsValid s
    → HasTimes (entries s)
    → length (snapshot s saved) < 2 ^ 63
    → (persist_save io f s path saved).1 ≡ persist_ok
    → (s' : Store) × (persist_load io (persist_save io f s path saved).0 store_create path loaded_at
        ≡ loaded s' persist_ok)
      × Survived saved loaded_at s s'
save-load io file writes reads f s path saved loaded_at v times small ok =
    let f' = (persist_save io f s path saved).0 in
    let (s', accepted, survived) = load-snapshot s saved loaded_at v times small in
    elim (persist_save-Settled io file writes path f s saved) [
      | inr (failed, same) ↦ absurd (ok_or_failed (sym ok ∙ failed))
      | inl (done, there) ↦
          let judged =
            persist_load_file io file reads f' store_create path (snapshot s saved) loaded_at there
              (length-snapshot s saved) in
          (s', judged ∙ accepted, survived)
    ]
