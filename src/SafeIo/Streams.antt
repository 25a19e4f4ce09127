-- ===== src/SafeIo/Streams.antt =====
-- safe_read and safe_write on a stream whose calls are interrupted a bounded number of times
-- (src/safe_io.cc).
use msg.Prelude.{
  ℕ, zero, suc, ◌+◌, ◌-◌, ◌≤◌, ◌<◌, ◌≡◌, ◌⊎◌, inl, inr, refl, sym, ap, ◌∙◌, arith, List, [], ◌∷◌,
  ◌++◌, length, ltb, ◌==◌, if◌then◌else◌, by_if, append-nil, append_assoc, length-append,
}
use msg.SafeIo.{
  Errno, eintr, eagain, edom, other_errno, ReadResult, read_bytes, read_error, Readable, Io, io,
  io_error, no_end, safe_read_loop, safe_read,
}

no_bytes : (xs : List ℕ) → length xs ≡ 0 → xs ≡ []
no_bytes [] h = refl
no_bytes (x ∷ xs) h = absurd (omega arith)

module _ (sys : Readable) where
  open sys use {Fd, rest, interrupts, read, read_some, read_fails, read_interrupted}

  -- What a read of `count` bytes does to a stream with the bytes `whole`.
  abbrev pub Taken : List ℕ → ℕ → Io (List ℕ) × Fd → Type 0
  Taken whole count (io buf, fd) =
      (whole ≡ buf ++ rest fd)
      × (length buf ≤ count)
      × ((0 < length buf) ⊎ ((count ≡ 0) ⊎ (whole ≡ [])))
  Taken whole count (io_error e, fd) =
      (lost : List ℕ) × ((whole ≡ lost ++ rest fd) × (length lost < count))
  Taken whole count (no_end, fd) = ⊥

  safe_read_loop-Taken :
      (rounds left count : ℕ) (buf whole : List ℕ) (fd : Fd)
      → whole ≡ buf ++ rest fd
      → left + length buf ≡ count
      → left + interrupts fd ≤ rounds
      → Taken whole count (safe_read_loop sys rounds left buf fd)
  unfolding safe_read_loop
  safe_read_loop-Taken rounds zero count buf whole fd e l f = (e, omega arith, by_length buf l)
    where
      by_length :
          (b : List ℕ) → zero + length b ≡ count → (0 < length b) ⊎ ((count ≡ 0) ⊎ (whole ≡ []))
      by_length [] z = inr (inl (omega arith))
      by_length (x ∷ xs) z = inl (omega arith)
  safe_read_loop-Taken zero (suc n) count buf whole fd e l f = absurd (omega arith)
  safe_read_loop-Taken (suc rounds) (suc n) count buf whole fd e l f =
      by_read (read (suc n) fd).0 refl
        (λ bs. safe_read_loop-Taken rounds (suc n - length bs) count (buf ++ bs) whole fd')
        (safe_read_loop-Taken rounds (suc n) count buf whole fd')
    where
      fd' : Fd
      fd' = (read (suc n) fd).1

      P : Io (List ℕ) × Fd → Type 0
      P = Taken whole count

      failed : (x : Errno) → (read (suc n) fd).0 ≡ read_error x → whole ≡ buf ++ rest fd'
      failed x h = e ∙ ap (λ t. buf ++ t) (sym (read_fails (suc n) fd x h))

      by_errno :
          (x : Errno)
          → (read (suc n) fd).0 ≡ read_error x
          → (whole ≡ buf ++ rest fd'
              → suc n + length buf ≡ count
              → suc n + interrupts fd' ≤ rounds
              → P (safe_read_loop sys rounds (suc n) buf fd'))
          → P (elim x as (λ e. Io (List ℕ) × Fd) [
            | eintr ↦ safe_read_loop sys rounds (suc n) buf fd'
            | eagain ↦ (if ltb 0 (length buf) then (io buf, fd') else (io_error eagain, fd'))
            | edom ↦ (io_error edom, fd')
            | other_errno n ↦ (io_error (other_errno n), fd')
          ])
      by_errno eintr h ih = ih (failed eintr h) l (omega (arith, read_interrupted (suc n) fd h))
      by_errno eagain h ih =
          by_if P (ltb 0 (length buf)) (λ t. (failed eagain h, omega arith, inl (ground arith)))
            λ t. (buf, (failed eagain h, omega arith))
      by_errno edom h ih = (buf, (failed edom h, omega arith))
      by_errno (other_errno k) h ih = (buf, (failed (other_errno k) h, omega arith))

      by_read :
          (r : ReadResult)
          → (read (suc n) fd).0 ≡ r
          → ((bs : List ℕ)
              → whole ≡ (buf ++ bs) ++ rest fd'
              → (suc n - length bs) + length (buf ++ bs) ≡ count
              → (suc n - length bs) + interrupts fd' ≤ rounds
              → P (safe_read_loop sys rounds (suc n - length bs) (buf ++ bs) fd'))
          → (whole ≡ buf ++ rest fd'
              → suc n + length buf ≡ count
              → suc n + interrupts fd' ≤ rounds
              → P (safe_read_loop sys rounds (suc n) buf fd'))
          → P (elim r as (λ r. Io (List ℕ) × Fd) [
            | read_bytes bs ↦
                let more = safe_read_loop sys rounds (suc n - length bs) (buf ++ bs) fd' in
                if length bs == 0 then (io buf, fd') else more
            | read_error e ↦ elim e as (λ e. Io (List ℕ) × Fd) [
              | eintr ↦ safe_read_loop sys rounds (suc n) buf fd'
              | eagain ↦ (if ltb 0 (length buf) then (io buf, fd') else (io_error eagain, fd'))
              | edom ↦ (io_error edom, fd')
              | other_errno n ↦ (io_error (other_errno n), fd')
            ]
          ])
      by_read (read_error x) h more again = by_errno x h again
      by_read (read_bytes bs) h more again =
          let t = read_some (suc n) fd bs h in
          by_if P (length bs == 0)
            (λ z.
              let none : bs ≡ [] = no_bytes bs (ground arith) in
              let end : rest fd ≡ [] = t.3 (omega arith) (ground arith) in
              (
                e ∙ ap (λ u. buf ++ u) (t.1 ∙ ap (λ u. u ++ rest fd') none),
                omega arith,
                at_end buf (e ∙ ap (λ u. buf ++ u) end ∙ append-nil buf),
              ))
            λ z.
              more bs (e ∙ ap (λ u. buf ++ u) t.1 ∙ sym (append_assoc buf bs (rest fd')))
                (omega (arith, length-append buf bs, t.0)) (ground (arith, t.0, t.2))
        where
          at_end : (b : List ℕ) → whole ≡ b → (0 < length b) ⊎ ((count ≡ 0) ⊎ (whole ≡ []))
          at_end [] q = inr (inr q)
          at_end (x ∷ xs) q = inl (omega arith)

  -- When the calls are interrupted a bounded number of times, safe_read ends within that number of
  -- rounds and one for each byte. It returns the bytes from the front of the stream, no more than were
  -- asked for, and none only when none were asked for or the stream is at its end. On an error the
  -- bytes that it had read, fewer than were asked for, are gone from the stream.
  pub safe_read-Taken :
      (rounds count : ℕ) (fd : Fd)
      → count + interrupts fd ≤ rounds
      → Taken (rest fd) count (safe_read sys rounds count fd)
  unfolding safe_read
  safe_read-Taken rounds count fd f =
      safe_read_loop-Taken rounds count count [] (rest fd) fd refl (omega arith) f
