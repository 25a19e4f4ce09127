-- ===== src/Buffers/Contiguous/Flat.antt =====
-- operator[] and crc32c read the flat contents (src/buffer.cc).
use msg.Prelude.{
  ℕ, zero, suc, ◌+◌, ◌-◌, ◌≤◌, ◌<◌, ◌≡◌, refl, sym, ap, ◌∙◌, arith, List, [], ◌∷◌, ◌++◌, length,
  take, drop, get_or, ltb, leb, ◌==◌, if◌then◌else◌, by_if,
}
use msg.Buffers.{Heap, Ptr, BufferList, Returned, returns, end_of_buffer}
use msg.Buffers.View.{
  content_of, ptr_bytes, list_bytes, bytes, total, AllWithin, IsSound, length-ptr_bytes,
  length-list_bytes,
}
use msg.Buffers.Contiguous.{char_loop, char_at, crc_loop, crc32c}
use msg.Buffers.Memory.Heaps.{get_or-append}

get_or-take : (n l : ℕ) (xs : List ℕ) → n < l → get_or (take l xs) n 0 ≡ get_or xs n 0
get_or-take n zero xs h = elim h [ ]
get_or-take n (suc l) [] h = refl
get_or-take zero (suc l) (x ∷ xs) h = refl
get_or-take (suc n) (suc l) (x ∷ xs) h = get_or-take n l xs (omega arith)

get_or-drop : (o n : ℕ) (xs : List ℕ) → get_or (drop o xs) n 0 ≡ get_or xs (o + n) 0
get_or-drop zero n xs = let z : n ≡ 0 + n = omega arith in ap (λ k. get_or xs k 0) z
get_or-drop (suc o) n [] = refl
get_or-drop (suc o) n (x ∷ xs) =
    let z : suc (o + n) ≡ suc o + n = omega arith in
    get_or-drop o n xs ∙ ap (λ k. get_or (x ∷ xs) k 0) z

get_or-append_right :
    (xs ys : List ℕ) (n : ℕ) → length xs ≤ n → get_or (xs ++ ys) n 0 ≡ get_or ys (n - length xs) 0
get_or-append_right [] ys n h = let z : n ≡ n - 0 = omega arith in ap (λ k. get_or ys k 0) z
get_or-append_right (x ∷ xs) ys zero h = elim h [ ]
get_or-append_right (x ∷ xs) ys (suc n) h =
    let z : n - length xs ≡ suc n - suc (length xs) = omega arith in
    get_or-append_right xs ys n (omega arith) ∙ ap (λ k. get_or ys k 0) z

module _ (h : Heap) where
  char_loop_lem :
      (ps : List Ptr) (n : ℕ)
      → AllWithin h ps
      → n < total ps
      → char_loop h ps n ≡ returns (get_or (list_bytes h ps) n 0)
  unfolding char_loop
  char_loop_lem [] n w e = elim e [ ]
  char_loop_lem (p ∷ ps) n w e =
      let pb : List ℕ = ptr_bytes h p in
      let size : length pb ≡ p.len = length-ptr_bytes h p w.0 in
      by_if (λ r. r ≡ returns (get_or (pb ++ list_bytes h ps) n 0)) (leb p.len n)
        (λ t.
          let left : n - p.len ≡ n - length pb = ap (λ k. n - k) (sym size) in
          char_loop_lem ps (n - p.len) w.1 (ground arith)
          ∙ ap (λ k. returns (get_or (list_bytes h ps) k 0)) left
          ∙ ap returns (sym (get_or-append_right pb (list_bytes h ps) n (ground (arith, size)))))
        λ t. ap returns (
          sym (get_or-drop p.off n (content_of h p.raw))
          ∙ sym (get_or-take n p.len (drop p.off (content_of h p.raw)) (ground arith))
          ∙ sym (get_or-append pb (list_bytes h ps) n 0 (ground (arith, size))))

  -- On a sound list operator[] is the byte at that place of the flat contents, and end_of_buffer
  -- behind them.
  pub char_at_lem :
      (bl : BufferList) (n : ℕ)
      → IsSound h bl
      → char_at h bl n
        ≡ (if ltb n (length (bytes h bl)) then returns (get_or (bytes h bl) n 0) else end_of_buffer)
  unfolding char_at
  char_at_lem bl n s =
      let size = length-list_bytes h bl.buffers s.0 in
      by_if
        (λ (r : Returned ℕ). r ≡ (
          if ltb n (length (bytes h bl)) then returns (get_or (bytes h bl) n 0) else end_of_buffer))
        (leb bl.len n)
        (λ t.
          by_if (λ (r : Returned ℕ). end_of_buffer ≡ r) (ltb n (length (bytes h bl)))
            (λ u. absurd (ground (arith, size, s.1))) λ u. refl)
        λ t.
          char_loop_lem bl.buffers n s.0 (ground (arith, s.1))
          ∙ by_if (λ (r : Returned ℕ). returns (get_or (bytes h bl) n 0) ≡ r)
              (ltb n (length (bytes h bl))) (λ u. refl) λ u. absurd (ground (arith, size, s.1))

  -- A checksum that goes on where it left off has one value for the flat contents, however a list is
  -- cut into ptrs.
  pub crc32c_flat :
      (crc : ℕ → List ℕ → ℕ) (bl : BufferList) (c : ℕ)
      → ((c : ℕ) → crc c [] ≡ c)
      → ((c : ℕ) (xs ys : List ℕ) → crc (crc c xs) ys ≡ crc c (xs ++ ys))
      → IsSound h bl
      → crc32c crc h bl c ≡ crc c (bytes h bl)
  unfolding crc32c crc_loop
  crc32c_flat crc bl c none more s = by_ptrs bl.buffers c s.0
    where
      by_ptrs :
          (ps : List Ptr) (c : ℕ) → AllWithin h ps → crc_loop crc h ps c ≡ crc c (list_bytes h ps)
      by_ptrs [] c w = sym (none c)
      by_ptrs (p ∷ ps) c w =
          by_if (λ r. crc_loop crc h ps r ≡ crc c (ptr_bytes h p ++ list_bytes h ps)) (p.len == 0)
            (λ t. absurd (ground arith))
            λ t. by_ptrs ps (crc c (ptr_bytes h p)) w.1 ∙ more c (ptr_bytes h p) (list_bytes h ps)
