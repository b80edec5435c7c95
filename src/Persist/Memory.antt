-- ===== src/Persist/Memory.antt =====
-- A file system in memory, for which the laws of Persist/Atomic hold.
use redis_server_c.Prelude.{
  ◌≡◌, ◌≢◌, refl, ap, Bool, true, false, [], ◌∷◌, ◌++◌, Option, none, some, arith, Bytes, bytes_eq,
  bytes_eq_iff, length, take, Option-cases, inl, inr, if◌then◌else◌,
}
use redis_server_c.Prelude.Int.{pos, negsuc}
use redis_server_c.Persist.File.{Stdio}
use redis_server_c.Persist.Atomic.{Writes, Reads}
use redis_server_c.Persist.Crash.{Parts, Local}

abbrev pub Files : Type 0
Files = Bytes → Option Bytes

abbrev pub write : Files → Bytes → Option Bytes → Files
write f t o = λ q. if bytes_eq t q then o else f q

abbrev content : Option Bytes → Bytes
content none = []
content (some b) = b

abbrev exists : Option Bytes → Bool
exists none = false
exists (some b) = true

abbrev pub memory : Stdio Files
memory = record {
  fopen_wb = λ f t. (write f t (some []), true);
  fwrite = λ f t b. (write f t (some (content (f t) ++ b)), length b);
  fflush = λ f t. (f, true);
  fclose = λ f t. f;
  rename = λ f t p. if exists (f t) then (write (write f t none) p (f t), true) else (f, false);
  remove = λ f t. write f t none;
  fopen_rb = λ f p. exists (f p);
  ftell_end = λ f p. elim (f p) [ none ↦ negsuc 0 | some b ↦ pos (length b) ];
  fread = λ f p n. take n (content (f p));
}

abbrev pub file : Files → Bytes → Option Bytes
file f p = f p

write-elsewhere :
    (f : Files) (t : Bytes) (o : Option Bytes) (p : Bytes) → p ≢ t → write f t o p ≡ f p
write-elsewhere f t o p other = ground (arith, bytes_eq_iff t p)

write-here : (f : Files) (t : Bytes) (o : Option Bytes) → write f t o t ≡ o
write-here f t o = ground (arith, bytes_eq_iff t t)

nothing : ¬ (false ≡ true)
nothing e = cc

rename-moves :
    (f : Files) (t p : Bytes) → (memory.rename f t p).1 ≡ true → (memory.rename f t p).0 p ≡ f t
rename-moves f t p h = elim (Option-cases (f t)) [
  | inl gone ↦ absurd (nothing (rw gone at h))
  | inr (b, there) ↦ rw there (write-here (write f t none) p (some b))
]

pub memory-Writes : Writes memory file
memory-Writes = record {
  fopen_elsewhere = λ f t p h. write-elsewhere f t (some []) p h;
  fwrite_elsewhere = λ f t b p h. write-elsewhere f t (some (content (f t) ++ b)) p h;
  fflush_elsewhere = λ f t p h. refl;
  fclose_elsewhere = λ f t p h. refl;
  remove_elsewhere = λ f t p h. write-elsewhere f t none p h;
  stored = λ f t b h1 h2 h3. ground (arith, bytes_eq_iff t t);
  renames = rename-moves;
  rename_fails = λ f t p h. ground (arith, bytes_eq_iff p p);
}

pub memory-Reads : Reads memory file
memory-Reads = record {
  opens = λ f p b h. ap exists h;
  tells = λ f p b h. ap (λ o. elim o [ none ↦ negsuc 0 | some c ↦ pos (length c) ]) h;
  reads = λ f p b n h. ap (λ o. take n (content o)) h;
}

-- fwrite() hands its first byte over, then the rest.
abbrev pub in_parts : Parts Files
in_parts = record {
  in_fwrite = λ f t b. write f t (some (content (f t) ++ take 1 b)) ∷ [];
  in_fflush = λ f t. [];
  in_fclose = λ f t. [];
}

pub in_parts-Local : Local in_parts file
in_parts-Local = record {
  fwrite_parts = λ f t b p h. (write-elsewhere f t (some (content (f t) ++ take 1 b)) p h, tt);
  fflush_parts = λ f t p h. tt;
  fclose_parts = λ f t p h. tt;
}
