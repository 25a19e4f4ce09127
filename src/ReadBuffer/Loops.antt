-- ===== src/ReadBuffer/Loops.antt =====
-- What the two loops of read_until take from the socket (src/async/AsyncConnection.cc).
use msg.Prelude.{
  ℕ, zero, suc, ◌+◌, ◌-◌, ◌≤◌, ◌<◌, ◌≡◌, refl, sym, ap, ◌∙◌, subst, List, [], ◌∷◌, ◌++◌, length,
  take, drop, ltb, leb, ◌==◌, if◌then◌else◌, arith, by_if, append_assoc, length-append, length-take,
  take-append-drop,
}
use msg.ReadBuffer.{
  SysRead, ReadReturn, got, again, error, Reader, Outcome, finished, remaining, failed, asserts,
  as_int, Bulk, bytes, failure, bulk_of, cleared, read_bulk, large_loop, prefetch_loop,
}

no_more : (xs ys : List ℕ) → length xs ≡ 0 → xs ++ ys ≡ ys
no_more [] ys h = refl
no_more (x ∷ xs) ys h = absurd (omega arith)

-- The first `n` bytes of `xs` go to the end of `filled`.
pub split :
    (filled : List ℕ) (n : ℕ) (xs rest : List ℕ)
    → (filled ++ take n xs) ++ (drop n xs ++ rest) ≡ filled ++ (xs ++ rest)
split filled n xs rest =
    append_assoc filled (take n xs) (drop n xs ++ rest)
    ∙ ap (λ t. filled ++ t)
        (sym (append_assoc (take n xs) (drop n xs) rest)
          ∙ ap (λ t. t ++ rest) (take-append-drop n xs))

module _ (sys : SysRead) where
  open sys use {Socket, read, stream, read_some, read_again, read_error}

  -- What is still to come from the begin of the item at `p`.
  abbrev pub unread : Reader → Socket → List ℕ
  unread r s = r.filled ++ (drop r.recv_start r.recv_buf ++ stream s)

  -- `total` is what was to come before, `len` what was asked for. Nothing is lost whatever the
  -- outcome; an item has its length, and the buffer keeps within its size.
  abbrev pub Result : ℕ → ℕ → List ℕ → Outcome × Reader × Socket → Type 0
  Result max len total (finished bs, r, s) =
      (bs ++ unread r s ≡ total)
      × (length bs ≡ len)
      × (length r.filled ≡ 0)
      × (r.recv_start ≤ length r.recv_buf)
      × (length r.recv_buf ≤ max)
  Result max len total (remaining n, r, s) =
      (unread r s ≡ total)
      × (n + length r.filled ≡ len)
      × (0 < n)
      × (n < 2147483648)
      × (r.recv_start ≡ 0)
      × (length r.recv_buf ≡ 0)
  Result max len total (failed, r, s) = unread r s ≡ total
  Result max len total (asserts, r, s) = ⊥

  -- The number that is missing, as an int: a failure when it is none.
  of_missing :
      (max len n : ℕ) (total : List ℕ) (r : Reader) (s : Socket)
      → unread r s ≡ total
      → n + length r.filled ≡ len
      → 0 < n
      → r.recv_start ≡ 0
      → length r.recv_buf ≡ 0
      → Result max len total (as_int n, r, s)
  of_missing max len n total r s e l p z b =
      by_if (λ o. Result max len total (o, r, s)) (ltb n 2147483648)
        (λ h. (e, l, p, ground arith, z, b)) λ h. e

  bulk_bytes :
      (n : ℕ) (s : Socket) (r : ReadReturn)
      → (read n s).0 ≡ r
      → (bs : List ℕ) → bulk_of r ≡ bytes bs
      → (length bs ≤ n) × (stream s ≡ bs ++ stream (read n s).1)
  unfolding bulk_of
  bulk_bytes n s (got []) e bs h = absurd (cc)
  bulk_bytes n s (got (c ∷ cs)) e bs h =
      let same : c ∷ cs ≡ bs = cc in read_some n s bs (e ∙ ap got same)
  bulk_bytes n s again e bs h =
      let none : [] ≡ bs = cc in rw (sym none) (omega arith, sym (read_again n s e))
  bulk_bytes n s error e bs h = absurd (cc)

  bulk_failure :
      (n : ℕ) (s : Socket) (r : ReadReturn)
      → (read n s).0 ≡ r
      → bulk_of r ≡ failure
      → stream s ≡ stream (read n s).1
  unfolding bulk_of
  bulk_failure n s (got []) e h = (read_some n s [] e).1
  bulk_failure n s (got (c ∷ cs)) e h = absurd (cc)
  bulk_failure n s again e h = absurd (cc)
  bulk_failure n s error e h = sym (read_error n s e)

  -- What read_bulk returns.
  data Bulked (n : ℕ) (s : Socket) : Bulk → Type 0 where
    some_bytes :
        (bs : List ℕ)
        → length bs ≤ n
        → stream s ≡ bs ++ stream (read_bulk sys n s).1
        → Bulked n s (bytes bs)
    no_bytes : stream s ≡ stream (read_bulk sys n s).1 → Bulked n s failure

  read_bulk-Bulked : (n : ℕ) (s : Socket) → Bulked n s (read_bulk sys n s).0
  unfolding read_bulk
  read_bulk-Bulked n s = by_return (bulk_of (read n s).0) refl
    where
      by_return : (b : Bulk) → bulk_of (read n s).0 ≡ b → Bulked n s b
      by_return (bytes bs) h =
          let t = bulk_bytes n s (read n s).0 refl bs h in some_bytes bs t.0 t.1
      by_return failure h = no_bytes (bulk_failure n s (read n s).0 refl h)

  pub large_loop_lem :
      (fuel max len left : ℕ) (filled : List ℕ) (s : Socket)
      → left + length filled ≡ len
      → 0 < left
      → left ≤ fuel
      → Result max len (filled ++ stream s) (large_loop sys fuel len left filled s)
  unfolding large_loop
  large_loop_lem zero max len left filled s e p f = absurd (omega arith)
  large_loop_lem (suc fuel) max len left filled s e p f =
      by_bulk (read_bulk sys left s).0 (read_bulk-Bulked left s)
        λ bs. large_loop_lem fuel max len (left - length bs) (filled ++ bs) (read_bulk sys left s).1
    where
      s' : Socket
      s' = (read_bulk sys left s).1

      P : Outcome × Reader × Socket → Type 0
      P = Result max len (filled ++ stream s)

      by_bulk :
          (b : Bulk)
          → Bulked left s b
          → ((bs : List ℕ)
              → (left - length bs) + length (filled ++ bs) ≡ len
              → 0 < left - length bs
              → left - length bs ≤ fuel
              → Result max len
                  ((filled ++ bs) ++ stream s')
                  (large_loop sys fuel len (left - length bs) (filled ++ bs) s'))
          → P (elim b [
            | failure ↦ (failed, cleared filled, s')
            | bytes bs ↦
                let rest = large_loop sys fuel len (left - length bs) (filled ++ bs) s' in
                if length bs == left
                then (finished (filled ++ bs), cleared [], s')
                else (if length bs == 0
                    then (as_int (len - length filled), cleared filled, s')
                    else rest)
          ])
      by_bulk _ (no_bytes t) ih = ap (λ t. filled ++ t) (sym t)
      by_bulk _ (some_bytes bs le t) ih =
          let moved : (filled ++ bs) ++ stream s' ≡ filled ++ stream s =
            append_assoc filled bs (stream s') ∙ ap (λ t. filled ++ t) (sym t) in
          let sum : length (filled ++ bs) ≡ length filled + length bs = length-append filled bs in
          by_if P (length bs == left) (λ h. (moved, ground arith, refl, omega arith, omega arith))
            λ h.
              by_if P (length bs == 0)
                (λ z.
                  of_missing max len _ _ (cleared filled) s'
                    (ap (λ t. filled ++ t) (sym (t ∙ no_more bs (stream s') (ground arith))))
                    (omega arith) (omega arith) refl refl)
                λ z.
                  subst
                    (λ t.
                      Result max len t
                        (large_loop sys fuel len (left - length bs) (filled ++ bs) s'))
                    moved (ih bs (omega arith) (ground arith) (ground arith))

  pub prefetch_loop_lem :
      (fuel max len left : ℕ) (filled buf : List ℕ) (s : Socket)
      → left + length filled + length buf ≡ len
      → 0 < left
      → left ≤ fuel
      → length buf + left ≤ max
      → Result max len
          (filled ++ (buf ++ stream s))
          (prefetch_loop sys fuel max len left filled buf s)
  unfolding prefetch_loop
  prefetch_loop_lem zero max len left filled buf s e p f m = absurd (omega arith)
  prefetch_loop_lem (suc fuel) max len left filled buf s e p f m =
      by_bulk (read_bulk sys (max - length buf) s).0 (read_bulk-Bulked (max - length buf) s) λ bs.
        prefetch_loop_lem fuel max len (left - length bs) filled (buf ++ bs)
          (read_bulk sys (max - length buf) s).1
    where
      s' : Socket
      s' = (read_bulk sys (max - length buf) s).1

      P : Outcome × Reader × Socket → Type 0
      P = Result max len (filled ++ (buf ++ stream s))

      by_bulk :
          (b : Bulk)
          → Bulked (max - length buf) s b
          → ((bs : List ℕ)
              → (left - length bs) + length filled + length (buf ++ bs) ≡ len
              → 0 < left - length bs
              → left - length bs ≤ fuel
              → length (buf ++ bs) + (left - length bs) ≤ max
              → Result max len
                  (filled ++ ((buf ++ bs) ++ stream s'))
                  (prefetch_loop sys fuel max len (left - length bs) filled (buf ++ bs) s'))
          → P (elim b [
            | failure ↦ (failed, record { recv_buf = buf; recv_start = 0; filled = filled }, s')
            | bytes bs ↦
                let buf' = buf ++ bs in
                let start = len - length filled in
                let rest = prefetch_loop sys fuel max len (left - length bs) filled buf' s' in
                if leb left (length bs)
                then (
                  finished (filled ++ take start buf'),
                  record { recv_buf = buf'; recv_start = start; filled = [] },
                  s',
                )
                else (if length bs == 0
                    then (
                      as_int (len - (length filled + length buf')),
                      cleared (filled ++ buf'),
                      s',
                    )
                    else rest)
          ])
      by_bulk _ (no_bytes t) ih = ap (λ t. filled ++ (buf ++ t)) (sym t)
      by_bulk _ (some_bytes bs le t) ih =
          let all : List ℕ = buf ++ bs in
          let n = len - length filled in
          let sum : length all ≡ length buf + length bs = length-append buf bs in
          let moved : filled ++ (all ++ stream s') ≡ filled ++ (buf ++ stream s) =
            ap (λ t. filled ++ t) (append_assoc buf bs (stream s') ∙ ap (λ t. buf ++ t) (sym t)) in
          by_if P (leb left (length bs))
            (λ h. (
              split filled n all (stream s') ∙ moved,
              length-append filled (take n all) ∙ ground (arith, length-take n all),
              refl,
              ground arith,
              ground arith,
            ))
            λ h.
              by_if P (length bs == 0)
                (λ z.
                  of_missing max len _ _ (cleared (filled ++ all)) s'
                    (append_assoc filled all (stream s') ∙ moved)
                    (ground (arith, length-append filled all)) (ground arith) refl refl)
                λ z.
                  subst
                    (λ t.
                      Result max len t
                        (prefetch_loop sys fuel max len (left - length bs) filled all s'))
                    moved (ih bs (ground arith) (ground arith) (ground arith) (ground arith))
