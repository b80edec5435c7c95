-- ===== src/Persist/Crash.antt =====
-- src/persist.c: what `persist_save` has made of the disk when the process dies on the way.
use redis_server_c.Prelude.{
  ◌≡◌, ◌≢◌, ◌⊎◌, inl, inr, refl, ◌∙◌, Bool, true, false, ◌&&◌, List, [], ◌∷◌, ◌++◌, Option, some,
  arith, Bytes, length, ◌==◌, Bool-cases, if◌then◌else◌,
}
use redis_server_c.Prelude.Int.{ℤ}
use redis_server_c.Store.State.{Store}
use redis_server_c.Persist.Image.{snapshot}
use redis_server_c.Persist.File.{Stdio, tmp_path, write_and_rename, persist_save}
use redis_server_c.Persist.Atomic.{Writes, tmp_path-other}

abbrev pub All {ℓ κ} : {A : Type ℓ} → (A → Type κ) → List A → Type κ
All P [] = Unit
All P (x ∷ xs) = P x × All P xs

pub All-append {ℓ κ} :
    {A : Type ℓ} (P : A → Type κ) (xs ys : List A) → All P xs → All P ys → All P (xs ++ ys)
All-append P [] ys h k = k
All-append P (x ∷ xs) ys (here, more) k = (here, All-append P xs ys more k)

abbrev pub last_of {ℓ} : {A : Type ℓ} → A → List A → A
last_of a [] = a
last_of a (x ∷ xs) = last_of x xs

last_of-append {ℓ} :
    {A : Type ℓ} (a : A) (xs : List A) (y : A) (ys : List A)
    → last_of a (xs ++ y ∷ ys) ≡ last_of y ys
last_of-append a [] y ys = refl
last_of-append a (x ∷ xs) y ys = last_of-append x xs y ys

-- The file systems that the disk passes through inside a call: fwrite(), fflush() and fclose() hand
-- the bytes to the system in parts. rename() is one step, as POSIX says.
pub record Parts (F : Type 0) : Type 0 where
  pub in_fwrite : F → Bytes → Bytes → List F
  pub in_fflush : F → Bytes → List F
  pub in_fclose : F → Bytes → List F

-- Such a call touches no other file.
pub record Local {F : Type 0} (parts : Parts F) (file : F → Bytes → Option Bytes) : Type 0 where
  pub fwrite_parts :
      (f : F) (t b p : Bytes) → p ≢ t → All (λ f'. file f' p ≡ file f p) (parts.in_fwrite f t b)
  pub fflush_parts :
      (f : F) (t p : Bytes) → p ≢ t → All (λ f'. file f' p ≡ file f p) (parts.in_fflush f t)
  pub fclose_parts :
      (f : F) (t p : Bytes) → p ≢ t → All (λ f'. file f' p ≡ file f p) (parts.in_fclose f t)

module _ {F : Type 0} (io : Stdio F) where
  -- From the closed stream on.
  unfoldable pub rename_stages : F → Bytes → Bytes → Bool → List F
  rename_stages f4 tmp path false = io.remove f4 tmp ∷ []
  rename_stages f4 tmp path true =
      let (f5, renamed) = io.rename f4 tmp path in
      f5 ∷ (if renamed then [] else io.remove f5 tmp ∷ [])

module _ {F : Type 0} (io : Stdio F) (parts : Parts F) where
  -- From the open stream on.
  unfoldable pub write_stages : F → Bytes → Bytes → List F
  unfolding rename_stages
  write_stages f1 bytes path =
      let tmp = tmp_path path in
      let (f2, written) = io.fwrite f1 tmp bytes in
      let (f3, flushed) = io.fflush f2 tmp in
      let f4 = io.fclose f3 tmp in
      let ok = (written == length bytes) && flushed in
      parts.in_fwrite f1 tmp bytes
      ++ (f2
          ∷ (parts.in_fflush f2 tmp
              ++ (f3 ∷ (parts.in_fclose f3 tmp ++ (f4 ∷ rename_stages io f4 tmp path ok)))))

  -- The disk after each step of `persist_save`, the one before it first.
  unfoldable pub save_stages : F → Store → Bytes → ℤ → List F
  unfolding write_stages
  save_stages f s path now =
      let (f1, opened) = io.fopen_wb f (tmp_path path) in
      f ∷ (f1 ∷ elim opened [ false ↦ [] | true ↦ write_stages f1 (snapshot s now) path ])

  write_stages-last :
      (f f1 : F) (bytes path : Bytes)
      → last_of f (write_stages f1 bytes path) ≡ (write_and_rename io f1 bytes path).0
  unfolding write_stages write_and_rename
  write_stages-last f f1 bytes path =
      let tmp = tmp_path path in
      let f2 = (io.fwrite f1 tmp bytes).0 in
      let f3 = (io.fflush f2 tmp).0 in
      let f4 = io.fclose f3 tmp in
      let ok = ((io.fwrite f1 tmp bytes).1 == length bytes) && (io.fflush f2 tmp).1 in
      last_of-append f (parts.in_fwrite f1 tmp bytes) f2 _
      ∙ last_of-append f2 (parts.in_fflush f2 tmp) f3 _
      ∙ last_of-append f3 (parts.in_fclose f3 tmp) f4 _
      ∙ elim (Bool-cases ok) [
        | inr short ↦ rw (short, write_and_rename) refl
        | inl whole ↦ elim (Bool-cases (io.rename f4 tmp path).1) [
          | inl moved ↦ rw (whole, moved, write_and_rename) refl
          | inr stays ↦ rw (whole, stays, write_and_rename) refl
        ]
      ]

-- At the path stands the file from before, or the new one.
abbrev pub OldOrNew :
    {F : Type 0} → (F → Bytes → Option Bytes) → Option Bytes → Bytes → Bytes → F → Type 0
OldOrNew file before bytes path f = (file f path ≡ before) ⊎ (file f path ≡ some bytes)

module _ {F : Type 0} (io : Stdio F) (parts : Parts F) (file : F → Bytes → Option Bytes)
    (laws : Writes io file) (nowhere_else : Local parts file) (path : Bytes) where
  abbrev tmp : Bytes
  tmp = tmp_path path

  -- Steps that leave the file at the path alone.
  unmoved :
      {f f' : F} (bytes : Bytes) (fs : List F)
      → file f' path ≡ file f path
      → All (λ g. file g path ≡ file f' path) fs
      → All (OldOrNew file (file f path) bytes path) fs
  unmoved bytes [] same h = tt
  unmoved bytes (g ∷ fs) same (here, more) = (inl (here ∙ same), unmoved bytes fs same more)

  rename_stages-OldOrNew :
      (f f4 : F) (bytes : Bytes) (ok : Bool)
      → file f4 path ≡ file f path
      → (ok ≡ true → file f4 tmp ≡ some bytes)
      → All (OldOrNew file (file f path) bytes path) (rename_stages io f4 tmp path ok)
  unfolding rename_stages
  rename_stages-OldOrNew f f4 bytes false same stored =
      (inl (laws.remove_elsewhere f4 tmp path (tmp_path-other path) ∙ same), tt)
  rename_stages-OldOrNew f f4 bytes true same stored =
      let f5 = (io.rename f4 tmp path).0 in
      elim (Bool-cases (io.rename f4 tmp path).1) [
        | inl moved ↦ rw moved (inr (laws.renames f4 tmp path moved ∙ stored refl), tt)
        | inr stays ↦
            let kept = laws.rename_fails f4 tmp path stays ∙ same in
            rw stays
              (inl kept, (inl (laws.remove_elsewhere f5 tmp path (tmp_path-other path) ∙ kept), tt))
      ]

  write_stages-OldOrNew :
      (f : F) (bytes : Bytes)
      → (io.fopen_wb f tmp).1 ≡ true
      → All
          (OldOrNew file (file f path) bytes path)
          (write_stages io parts (io.fopen_wb f tmp).0 bytes path)
  unfolding write_stages
  write_stages-OldOrNew f bytes opened =
      let f1 = (io.fopen_wb f tmp).0 in
      let f2 = (io.fwrite f1 tmp bytes).0 in
      let f3 = (io.fflush f2 tmp).0 in
      let f4 = io.fclose f3 tmp in
      let other = tmp_path-other path in
      let same1 = laws.fopen_elsewhere f tmp path other in
      let same2 = laws.fwrite_elsewhere f1 tmp bytes path other ∙ same1 in
      let same3 = laws.fflush_elsewhere f2 tmp path other ∙ same2 in
      let same4 = laws.fclose_elsewhere f3 tmp path other ∙ same3 in
      let ok = ((io.fwrite f1 tmp bytes).1 == length bytes) && (io.fflush f2 tmp).1 in
      let stored : ok ≡ true → file f4 tmp ≡ some bytes =
        λ whole. laws.stored f tmp bytes opened (ground (arith, whole)) (ground (arith, whole)) in
      All-append _ (parts.in_fwrite f1 tmp bytes) _
        (unmoved bytes _ same1 (nowhere_else.fwrite_parts f1 tmp bytes path other))
        (
          inl same2,
          All-append _ (parts.in_fflush f2 tmp) _
              (unmoved bytes _ same2 (nowhere_else.fflush_parts f2 tmp path other))
              (
                inl same3,
                All-append _ (parts.in_fclose f3 tmp) _
                    (unmoved bytes _ same3 (nowhere_else.fclose_parts f3 tmp path other))
                    (inl same4, rename_stages-OldOrNew f f4 bytes ok same4 stored),
              ),
        )

  -- Whenever the process dies in `persist_save`, between two calls or inside one that writes, the
  -- file at the path is the one from before or the whole new snapshot; the stages end with what the
  -- call leaves, the C library is as documented, a call that writes touches no other file, and
  -- rename() is one step.
  pub persist_save-stages :
      (f : F) (s : Store) (now : ℤ)
      → All (OldOrNew file (file f path) (snapshot s now) path) (save_stages io parts f s path now)
        × (last_of f (save_stages io parts f s path now) ≡ (persist_save io f s path now).0)
  unfolding save_stages persist_save
  persist_save-stages f s now =
      let same = laws.fopen_elsewhere f tmp path (tmp_path-other path) in
      elim (Bool-cases (io.fopen_wb f tmp).1) [
        | inr shut ↦ rw (shut, persist_save, save_stages) ((inl refl, (inl same, tt)), refl)
        | inl opened ↦
            rw (opened, persist_save, save_stages)
              (
                (inl refl, (inl same, write_stages-OldOrNew f (snapshot s now) opened)),
                write_stages-last io parts (io.fopen_wb f tmp).0 (io.fopen_wb f tmp).0
                    (snapshot s now) path,
              )
      ]
