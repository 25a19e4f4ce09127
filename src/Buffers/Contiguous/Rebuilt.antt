-- ===== src/Buffers/Contiguous/Rebuilt.antt =====
-- rebuild copies the flat contents into one raw (src/buffer.cc).
use msg.Prelude.{
  ℕ, ◌+◌, ◌≤◌, ◌<◌, ◌≡◌, refl, sym, ap, ap₂, ◌∙◌, arith, true, List, [], ◌∷◌, ◌++◌, length, take,
  drop, ◌==◌, by_if, append-nil, append_assoc, length-append, length-take, take-append-drop,
  take-append_all, drop-append_all, drop-drop, drop_all, take_all,
}
use msg.Buffers.{Raw, Heap, Ptr, BufferList, wrap32}
use msg.Buffers.View.{
  no_raw, content_of, ptr_bytes, list_bytes, bytes, total, AllWithin, IsSound, length-ptr_bytes,
  length-list_bytes,
}
use msg.Buffers.Memory.{overwrite}
use msg.Buffers.Memory.Heaps.{
  length-overwrite, AllKept, list_bytes-AllKept, new_raw-Kept, get_or-append_end,
}
use msg.Buffers.Contiguous.{orphaned, rebuild_loop, rebuild}

overwritten :
    (o n : ℕ) (src c : List ℕ)
    → length src ≡ n
    → o + n ≤ length c
    → (take (o + n) (overwrite o src c) ≡ take o c ++ src)
      × (drop (o + n) (overwrite o src c) ≡ drop (o + n) c)
overwritten o n src c e f =
    let xs : List ℕ = take o c ++ src in
    let size : length xs ≡ o + n = length-append (take o c) src ∙ omega (arith, length-take o c) in
    let seam : overwrite o src c ≡ xs ++ drop (o + n) c =
      sym (append_assoc (take o c) src (drop (o + length src) c))
      ∙ ap (λ k. xs ++ drop (o + k) c) e in
    (
      ap (λ t. take (o + n) t) seam ∙ take-append_all (o + n) xs (drop (o + n) c) size,
      ap (λ t. drop (o + n) t) seam ∙ drop-append_all (o + n) xs (drop (o + n) c) size,
    )

rebuild_loop_lem :
    (h : Heap) (ps : List Ptr) (pos : ℕ) (c : List ℕ)
    → AllWithin h ps
    → pos + total ps ≤ length c
    → let r = rebuild_loop h ps pos c in
      (r.0 ≡ pos + total ps) × (r.1 ≡ take pos c ++ (list_bytes h ps ++ drop (pos + total ps) c))
unfolding rebuild_loop
rebuild_loop_lem h [] pos c w e =
    let z : pos ≡ pos + 0 = omega arith in
    (z, sym (take-append-drop pos c) ∙ ap (λ k. take pos c ++ drop k c) z)
rebuild_loop_lem h (p ∷ ps) pos c w e =
    let pb : List ℕ = ptr_bytes h p in
    let size : length pb ≡ p.len = length-ptr_bytes h p w.0 in
    let c' : List ℕ = overwrite pos pb c in
    let keep : length c' ≡ length c = length-overwrite pos pb c (omega (arith, size)) in
    let ih = rebuild_loop_lem h ps (pos + p.len) c' w.1 (omega (arith, keep)) in
    let o = overwritten pos p.len pb c size (omega arith) in
    let rest : pos + p.len + total ps ≡ pos + (p.len + total ps) = omega arith in
    (
      ih.0 ∙ rest,
      ih.1
          ∙ ap₂ (λ s t. s ++ (list_bytes h ps ++ t)) o.0
              (sym (drop-drop (total ps) (pos + p.len) c')
                ∙ ap (λ t. drop (total ps) t) o.1
                ∙ drop-drop (total ps) (pos + p.len) c
                ∙ ap (λ k. drop k c) rest)
          ∙ append_assoc (take pos c) pb (list_bytes h ps ++ drop (pos + (p.len + total ps)) c)
          ∙ ap (λ t. take pos c ++ t)
              (sym (append_assoc pb (list_bytes h ps) (drop (pos + (p.len + total ps)) c))),
    )

module _ (uninit : ℕ → List ℕ) (sized : (n : ℕ) → length (uninit n) ≡ n) (h : Heap)
    (bl : BufferList) (s : IsSound h bl) where
  -- The new raw holds the flat contents.
  pub copied : (rebuild_loop h bl.buffers 0 (uninit bl.len)).1 ≡ bytes h bl
  copied =
      let n = sized bl.len in
      let r = rebuild_loop_lem h bl.buffers 0 (uninit bl.len) s.0 (omega (arith, n, s.1)) in
      r.1
      ∙ ap (λ t. bytes h bl ++ t)
          (drop_all (0 + total bl.buffers) (uninit bl.len) (omega (arith, n, s.1)))
      ∙ append-nil (bytes h bl)

  abbrev pub one_raw : Raw
  one_raw = record { content = (rebuild_loop h bl.buffers 0 (uninit bl.len)).1; shareable = true }

  abbrev pub one_list : BufferList
  one_list = record bl {
    buffers = record { raw = length h; off = 0; len = bl.len } ∷ [];
    memcopy_count = wrap32 (bl.memcopy_count + (rebuild_loop h bl.buffers 0 (uninit bl.len)).0);
    last_p = orphaned bl.last_p;
  }

  pub rebuild_nonempty : 0 < bl.len → rebuild uninit h bl ≡ (h ++ (one_raw ∷ []), one_list)
  unfolding rebuild
  rebuild_nonempty p =
      by_if (λ r. r ≡ (h ++ (one_raw ∷ []), one_list)) (bl.len == 0) (λ t. absurd (ground arith))
        λ t. refl

  pub new_content : content_of (h ++ (one_raw ∷ [])) (length h) ≡ bytes h bl
  new_content = ap (λ r. r.content) (get_or-append_end h one_raw no_raw) ∙ copied

  size : length (bytes h bl) ≡ bl.len
  size = length-list_bytes h bl.buffers s.0 ∙ sym s.1

  pub one_list-bytes : bytes (h ++ (one_raw ∷ [])) one_list ≡ bytes h bl
  one_list-bytes =
      append-nil (take bl.len (content_of (h ++ (one_raw ∷ [])) (length h)))
      ∙ ap (λ c. take bl.len c) new_content
      ∙ take_all bl.len (bytes h bl) (omega (arith, size))

  pub one_list-IsSound : 0 < bl.len → IsSound (h ++ (one_raw ∷ [])) one_list
  one_list-IsSound p =
      let n = ap (λ c. length c) new_content in
      (
        (
          (
            omega (arith, length-append h (one_raw ∷ [])),
            omega (arith, n, size),
            p,
            omega (arith, n, size, s.2),
          ),
          tt,
        ),
        omega arith,
        s.2,
      )

  pub others_kept :
      (ps : List Ptr) → AllWithin h ps → list_bytes (h ++ (one_raw ∷ [])) ps ≡ list_bytes h ps
  others_kept ps w = list_bytes-AllKept h (h ++ (one_raw ∷ [])) ps (keeps ps w)
    where
      keeps : (ps : List Ptr) → AllWithin h ps → AllKept h (h ++ (one_raw ∷ [])) ps
      keeps [] v = tt
      keeps (q ∷ qs) v = (new_raw-Kept h one_raw q v.0, keeps qs v.1)
