-- ===== src/SafeIo/Writes.antt =====
-- safe_write on a descriptor whose calls write nothing a bounded number of times (src/safe_io.cc).
use msg.Prelude.{
  ℕ, zero, suc, ◌+◌, ◌≤◌, ◌<◌, ◌≡◌, ◌⊎◌, inl, inr, refl, sym, ap, ◌∙◌, arith, List, [], ◌∷◌, ◌++◌,
  length, take, drop, ltb, if◌then◌else◌, by_if, append-nil, append_assoc, length-drop, take_add,
  drop-drop,
}
use msg.SafeIo.{
  Errno, eintr, eagain, edom, other_errno, WriteResult, wrote, write_error, Writable, Io, io,
  io_error, no_end, safe_write_loop, safe_write,
}

module _ (sys : Writable) where
  open sys use {Fd, content, idle, write, write_some, write_fails, write_interrupted}

  -- What a write of `bs` does to a descriptor that holds `old`.
  abbrev pub Put : List ℕ → List ℕ → Io ℕ × Fd → Type 0
  Put old bs (io n, fd) =
      (n ≤ length bs) × (content fd ≡ old ++ take n bs) × ((0 < n) ⊎ (length bs ≡ 0))
  Put old bs (io_error e, fd) = (n : ℕ) × ((n < length bs) × (content fd ≡ old ++ take n bs))
  Put old bs (no_end, fd) = ⊥

  safe_write_loop-Put :
      (rounds : ℕ) (left : List ℕ) (cnt : ℕ) (old bs : List ℕ) (fd : Fd)
      → left ≡ drop cnt bs
      → cnt ≤ length bs
      → content fd ≡ old ++ take cnt bs
      → length left + idle fd ≤ rounds
      → Put old bs (safe_write_loop sys rounds left cnt fd)
  unfolding safe_write_loop
  safe_write_loop-Put rounds [] cnt old bs fd d l e f =
      let n = ap (λ t. length t) d in (l, e, by_count cnt (omega (arith, n, length-drop cnt bs)))
    where
      by_count : (c : ℕ) → length bs ≤ c → (0 < c) ⊎ (length bs ≡ 0)
      by_count zero z = inr (omega arith)
      by_count (suc c) z = inl (omega arith)
  safe_write_loop-Put zero (b ∷ left) cnt old bs fd d l e f = absurd (omega arith)
  safe_write_loop-Put (suc rounds) (b ∷ left) cnt old bs fd d l e f =
      by_write (write (b ∷ left) fd).0 refl
        (λ n. safe_write_loop-Put rounds (drop n (b ∷ left)) (cnt + n) old bs fd')
        (safe_write_loop-Put rounds (b ∷ left) cnt old bs fd')
    where
      fd' : Fd
      fd' = (write (b ∷ left) fd).1

      P : Io ℕ × Fd → Type 0
      P = Put old bs

      more_left : cnt < length bs
      more_left = omega (arith, ap (λ t. length t) d, length-drop cnt bs)

      same :
          (x : Errno) → (write (b ∷ left) fd).0 ≡ write_error x → content fd' ≡ old ++ take cnt bs
      same x h = write_fails (b ∷ left) fd x h ∙ e

      by_errno :
          (x : Errno)
          → (write (b ∷ left) fd).0 ≡ write_error x
          → (b ∷ left ≡ drop cnt bs
              → cnt ≤ length bs
              → content fd' ≡ old ++ take cnt bs
              → length (b ∷ left) + idle fd' ≤ rounds
              → P (safe_write_loop sys rounds (b ∷ left) cnt fd'))
          → P (elim x as (λ e. Io ℕ × Fd) [
            | eintr ↦ safe_write_loop sys rounds (b ∷ left) cnt fd'
            | eagain ↦ (if ltb 0 cnt then (io cnt, fd') else (io_error eagain, fd'))
            | edom ↦ (io_error edom, fd')
            | other_errno n ↦ (io_error (other_errno n), fd')
          ])
      by_errno eintr h ih = ih d l (same eintr h) (omega (arith, write_interrupted (b ∷ left) fd h))
      by_errno eagain h ih =
          by_if P (ltb 0 cnt) (λ t. (l, same eagain h, inl (ground arith)))
            λ t. (cnt, (more_left, same eagain h))
      by_errno edom h ih = (cnt, (more_left, same edom h))
      by_errno (other_errno k) h ih = (cnt, (more_left, same (other_errno k) h))

      by_write :
          (r : WriteResult)
          → (write (b ∷ left) fd).0 ≡ r
          → ((n : ℕ)
              → drop n (b ∷ left) ≡ drop (cnt + n) bs
              → cnt + n ≤ length bs
              → content fd' ≡ old ++ take (cnt + n) bs
              → length (drop n (b ∷ left)) + idle fd' ≤ rounds
              → P (safe_write_loop sys rounds (drop n (b ∷ left)) (cnt + n) fd'))
          → (b ∷ left ≡ drop cnt bs
              → cnt ≤ length bs
              → content fd' ≡ old ++ take cnt bs
              → length (b ∷ left) + idle fd' ≤ rounds
              → P (safe_write_loop sys rounds (b ∷ left) cnt fd'))
          → P (elim r as (λ r. Io ℕ × Fd) [
            | wrote n ↦ safe_write_loop sys rounds (drop n (b ∷ left)) (cnt + n) fd'
            | write_error e ↦ elim e as (λ e. Io ℕ × Fd) [
              | eintr ↦ safe_write_loop sys rounds (b ∷ left) cnt fd'
              | eagain ↦ (if ltb 0 cnt then (io cnt, fd') else (io_error eagain, fd'))
              | edom ↦ (io_error edom, fd')
              | other_errno n ↦ (io_error (other_errno n), fd')
            ]
          ])
      by_write (write_error x) h more again = by_errno x h again
      by_write (wrote n) h more again =
          let t = write_some (b ∷ left) fd n h in
          more n (ap (λ u. drop n u) d ∙ drop-drop n cnt bs)
            (omega (arith, t.0, ap (λ u. length u) d, length-drop cnt bs))
            (t.1
              ∙ ap (λ u. u ++ take n (b ∷ left)) e
              ∙ append_assoc old (take cnt bs) (take n (b ∷ left))
              ∙ ap (λ u. old ++ u) (ap (λ u. take cnt bs ++ take n u) d ∙ sym (take_add cnt n bs)))
            (ground (arith, length-drop n (b ∷ left), t.0, t.2 (omega arith)))

  -- When a bounded number of calls write nothing, safe_write ends within that number of rounds and one
  -- for each byte. What it returns is the number of bytes from the front of its argument that the
  -- descriptor has taken behind what it held, and that is none only for an empty argument. On an error
  -- fewer bytes than the argument has were taken.
  pub safe_write-Put :
      (rounds : ℕ) (bs : List ℕ) (fd : Fd)
      → length bs + idle fd ≤ rounds
      → Put (content fd) bs (safe_write sys rounds bs fd)
  unfolding safe_write
  safe_write-Put rounds bs fd f =
      safe_write_loop-Put rounds bs 0 (content fd) bs fd refl (omega arith)
        (sym (append-nil (content fd))) f
