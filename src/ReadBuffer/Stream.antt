-- ===== src/ReadBuffer/Stream.antt =====
-- read_until takes its item from the front of the stream (src/async/AsyncConnection.cc).
use msg.Prelude.{
  take_all, ℕ, zero, suc, ◌+◌, ◌-◌, ◌≤◌, ◌<◌, ◌≡◌, refl, sym, ap, ◌∙◌, subst, not, min, List, [],
  ◌∷◌, ◌++◌, length, take, drop, ltb, ◌==◌, arith, by_if, ◌⊎◌, append_assoc, length-append,
  length-take, length-drop, drop-nil,
}
use msg.ReadBuffer.{SysRead, Reader, read_more, read_until}
use msg.ReadBuffer.Loops.{unread, Result, split, large_loop_lem, prefetch_loop_lem}

-- Between two calls for an item of `len` bytes: recv_buf keeps within its size and is empty while part
-- of the item is at `p`.
pub record Between (max len : ℕ) (r : Reader) : Type 0 where
  pub wanted : length r.filled < len
  pub within : r.recv_start ≤ length r.recv_buf
  pub size : length r.recv_buf ≤ max
  pub apart : (length r.filled ≡ 0) ⊎ (r.recv_start ≡ length r.recv_buf)

drop-drop : (m n : ℕ) (xs : List ℕ) → drop n (drop m xs) ≡ drop (m + n) xs
drop-drop zero n xs = let e : n ≡ 0 + n = omega arith in ap (λ k. drop k xs) e
drop-drop (suc m) n [] =
    let e : suc (m + n) ≡ suc m + n = omega arith in
    drop-nil n ∙ ap (λ k. drop k (let xs : List ℕ = [] in xs)) e
drop-drop (suc m) n (x ∷ xs) =
    let e : suc (m + n) ≡ suc m + n = omega arith in drop-drop m n xs ∙ ap (λ k. drop k (x ∷ xs)) e

drop_all : (n : ℕ) (xs : List ℕ) → length xs ≤ n → drop n xs ≡ []
drop_all zero [] h = refl
drop_all zero (x ∷ xs) h = absurd (omega arith)
drop_all (suc n) [] h = refl
drop_all (suc n) (x ∷ xs) h = drop_all n xs (omega arith)

module _ (sys : SysRead) where
  open sys use {Socket, stream}

  read_more_lem :
      (max len : ℕ) (filled : List ℕ) (s : Socket)
      → length filled < len
      → Result sys max len (filled ++ stream s) (read_more sys max len filled s)
  unfolding read_more
  read_more_lem max len filled s w =
      by_if (Result sys max len (filled ++ stream s)) (ltb max len)
        (λ h. large_loop_lem sys _ max len _ filled s (omega arith) (omega arith) (omega arith))
        λ h.
          prefetch_loop_lem sys _ max len _ filled [] s (omega arith) (omega arith) (omega arith)
            (ground arith)

  pub read_until-Result :
      (max len : ℕ) (r : Reader) (s : Socket)
      → Between max len r
      → Result sys max len (unread sys r s) (read_until sys max len r s)
  unfolding read_until
  read_until-Result max len r s b =
      let P = Result sys max len (unread sys r s) in
      let wanted = b.wanted in
      let within = b.within in
      let size = b.size in
      let apart = b.apart in
      let held = length r.recv_buf - r.recv_start in
      let left = len - length r.filled in
      let n = min held left in
      let kept = drop r.recv_start r.recv_buf in
      by_if P (len == 0) (λ h. absurd (ground arith))
        λ _.
          by_if P (ltb r.recv_start (length r.recv_buf))
            (λ some_held.
              by_if P (not (length r.filled == 0)) (λ h. absurd (ground arith))
                λ empty.
                  by_if P (left - n == 0)
                    (λ all. (
                      ap (λ d. (r.filled ++ take n kept) ++ (d ++ stream s))
                            (sym (drop-drop r.recv_start n r.recv_buf))
                          ∙ split r.filled n kept (stream s),
                      length-append r.filled (take n kept)
                          ∙ ground (arith, length-take n kept, length-drop r.recv_start r.recv_buf),
                      refl,
                      ground arith,
                      size,
                    ))
                    λ more.
                      let some : length kept ≤ n =
                        ground (arith, length-drop r.recv_start r.recv_buf) in
                      let copied = r.filled ++ take n kept in
                      let same : copied ++ stream s ≡ unread sys r s =
                        append_assoc r.filled (take n kept) (stream s)
                        ∙ ap (λ t. r.filled ++ (t ++ stream s)) (take_all n kept some) in
                      let short : length copied < len =
                        ground (arith, length-append r.filled (take n kept), length-take n kept) in
                      subst (λ t. Result sys max len t (read_more sys max len copied s)) same
                        (read_more_lem max len copied s short))
            λ none_held.
              by_if P (r.recv_start == length r.recv_buf)
                (λ h.
                  let none_left : drop r.recv_start r.recv_buf ≡ [] =
                    drop_all r.recv_start r.recv_buf (ground arith) in
                  subst
                    (λ t.
                      Result sys max len (r.filled ++ (t ++ stream s))
                        (read_more sys max len r.filled s))
                    (sym none_left) (read_more_lem max len r.filled s wanted))
                λ h. absurd (ground arith)
