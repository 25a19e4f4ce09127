-- ===== src/SafeIo/Examples.antt =====
-- The theorems of the whole reads and writes on descriptors that are interrupted now and then.
use msg.Prelude.{
  ℕ, zero, suc, ◌+◌, ◌≤◌, ◌<◌, ◌≡◌, refl, arith, List, [], ◌∷◌, ◌++◌, length, take, drop, ◌==◌,
  if◌then◌else◌, Option, none, some, take-append-drop, sym, length-take, append-nil,
}
use msg.SafeIo.{
  Errno, eintr, ReadResult, read_bytes, read_error, WriteResult, wrote, write_error, Readable,
  Writable, safe_write,
}
use msg.SafeIo.Files.{Opened, fd, FileCalls, safe_write_file}
use msg.SafeIo.Writes.{Put, safe_write-Put}
use msg.SafeIo.Stuck.{file-safe_write_file}

-- A descriptor is what it holds and how many calls are still interrupted; a call takes one byte.
abbrev write_one : List ℕ → List ℕ × ℕ → WriteResult × (List ℕ × ℕ)
write_one bs (c, suc n) = (write_error eintr, (c, n))
write_one [] (c, zero) = (wrote 0, (c, zero))
write_one (b ∷ bs) (c, zero) = (wrote 1, (c ++ (b ∷ []), zero))

write_one_some :
    (bs : List ℕ) (f : List ℕ × ℕ) (n : ℕ)
    → (write_one bs f).0 ≡ wrote n
    → (n ≤ length bs)
      × ((write_one bs f).1.0 ≡ f.0 ++ take n bs)
      × (0 < length bs → (write_one bs f).1.1 + (if n == 0 then 1 else 0) ≤ f.1)
write_one_some bs (c, suc k) n h = absurd (cc)
write_one_some [] (c, zero) zero h = (omega arith, sym (append-nil c), λ p. elim p [ ])
write_one_some [] (c, zero) (suc n) h = absurd (cc)
write_one_some (b ∷ bs) (c, zero) zero h = absurd (cc)
write_one_some (b ∷ bs) (c, zero) (suc zero) h = (omega arith, refl, λ p. omega arith)
write_one_some (b ∷ bs) (c, zero) (suc (suc n)) h = absurd (cc)

write_one_fails :
    (bs : List ℕ) (f : List ℕ × ℕ) (e : Errno)
    → (write_one bs f).0 ≡ write_error e
    → (write_one bs f).1.0 ≡ f.0
write_one_fails bs (c, suc k) e h = refl
write_one_fails [] (c, zero) e h = refl
write_one_fails (b ∷ bs) (c, zero) e h = absurd (cc)

write_one-interrupted :
    (bs : List ℕ) (f : List ℕ × ℕ)
    → (write_one bs f).0 ≡ write_error eintr
    → (write_one bs f).1.1 < f.1
write_one-interrupted bs (c, suc k) h = omega arith
write_one-interrupted [] (c, zero) h = absurd (cc)
write_one-interrupted (b ∷ bs) (c, zero) h = absurd (cc)

abbrev slow_writes : Writable
slow_writes = record {
  Fd = List ℕ × ℕ;
  content = λ f. f.0;
  idle = λ f. f.1;
  write = write_one;
  write_some = write_one_some;
  write_fails = write_one_fails;
  write_interrupted = write_one-interrupted;
}

-- reads that are never interrupted
abbrev read_up : ℕ → List ℕ → ReadResult × List ℕ
read_up n s = (read_bytes (take n s), drop n s)

read_up_some :
    (n : ℕ) (s bs : List ℕ)
    → (read_up n s).0 ≡ read_bytes bs
    → (length bs ≤ n) × (s ≡ bs ++ drop n s) × (0 ≤ 0) × (0 < n → length bs ≡ 0 → s ≡ [])
read_up_some zero s bs h =
    let same : [] ≡ bs = cc in rw (sym same) (omega arith, refl, omega arith, λ p. elim p [ ])
read_up_some (suc n) [] bs h =
    let same : [] ≡ bs = cc in rw (sym same) (omega arith, refl, omega arith, λ _ p. refl)
read_up_some (suc n) (x ∷ xs) bs h =
    let same : x ∷ take n xs ≡ bs = cc in
    rw (sym same) (
      omega (arith, length-take n xs),
      sym (take-append-drop (suc n) (x ∷ xs)),
      omega arith,
      λ _ p. absurd (omega arith),
    )

read_up_fails :
    (n : ℕ) (s : List ℕ) (e : Errno) → (read_up n s).0 ≡ read_error e → (read_up n s).1 ≡ s
read_up_fails n s e h = absurd (cc)

read_up-interrupted : (n : ℕ) (s : List ℕ) → (read_up n s).0 ≡ read_error eintr → 0 < 0
read_up-interrupted n s h = absurd (cc)

abbrev plain_reads : Readable
plain_reads = record {
  Fd = List ℕ;
  rest = λ s. s;
  interrupts = λ s. 0;
  read = read_up;
  read_some = read_up_some;
  read_fails = read_up_fails;
  read_interrupted = read_up-interrupted;
}

-- A directory whose calls succeed: the file, and the file beside it.
abbrev easy : FileCalls plain_reads slow_writes
easy = record {
  Dir = Option (List ℕ) × List ℕ;
  file = λ d. d.0;
  open_file = λ d. (elim d.0 as (λ o. Opened (List ℕ)) [ none ↦ fd [] | some c ↦ fd c ], d);
  open_tmp = λ d. (fd ([], 2), (d.0, []));
  fsync_tmp = λ f d. (none, (d.0, f.0));
  unlink_tmp = λ d. (d.0, []);
  rename = λ d. (none, (some d.1, []));
  fsync_dir = λ d. (none, d);
  file-open_file = λ d. refl;
  file-open_tmp = λ d. refl;
  file-fsync_tmp = λ f d. refl;
  file-unlink_tmp = λ d. refl;
  file-fsync_dir = λ d. refl;
}

safe_write-Put_example :
    Put slow_writes (9 ∷ []) (1 ∷ (2 ∷ [])) (safe_write slow_writes 5 (1 ∷ (2 ∷ [])) (9 ∷ [], 3))
safe_write-Put_example = safe_write-Put slow_writes 5 (1 ∷ (2 ∷ [])) (9 ∷ [], 3) (omega arith)

file-safe_write_file_example :
    (safe_write_file plain_reads slow_writes easy 100 (7 ∷ (8 ∷ [])) (some (1 ∷ []), [])).1.0
    ≡ some (1 ∷ [])
file-safe_write_file_example =
    file-safe_write_file plain_reads slow_writes easy 100 7 (8 ∷ []) (some (1 ∷ []), [])
      (omega arith)
