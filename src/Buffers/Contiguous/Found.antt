-- ===== src/Buffers/Contiguous/Found.antt =====
-- get_contiguous points at the bytes of its range in one piece of memory (src/buffer.cc).
use msg.Prelude.{
  ℕ, ◌+◌, ◌≤◌, ◌<◌, ◌≡◌, refl, sym, ap, ◌∙◌, subst, arith, List, [], ◌∷◌, length, take, drop, ltb,
  ◌==◌, if◌then◌else◌, by_if, Option, none, some, slice-append_left,
}
use msg.Buffers.{
  Heap, Ptr, BufferList, Returned, returns, end_of_buffer, asserts, undefined, ◌>>=◌, wrap32,
  skip_to,
}
use msg.Buffers.View.{
  content_of, ptr_bytes, list_bytes, bytes, total, AllWithin, IsSound, length-ptr_bytes,
  length-list_bytes,
}
use msg.Buffers.Substr.{wrap32_lem, ptr_bytes-part, Skipped, skip_to-Skipped}
use msg.Buffers.Contiguous.{rebuild, c_str, get_contiguous}
use msg.Buffers.Contiguous.Rebuilt.{
  rebuild_nonempty, new_content, one_list-bytes, one_list-IsSound, others_kept,
}

-- The list still holds the bytes `bs` and is sound, and the ptrs `others` keep their bytes.
abbrev pub Same : Heap → List ℕ → List Ptr → Heap → BufferList → Type 0
Same h bs others h' bl' =
    (bytes h' bl' ≡ bs) × IsSound h' bl' × (list_bytes h' others ≡ list_bytes h others)

-- The outcome of get_contiguous on a list whose bytes are `bs`.
abbrev pub Found :
    Heap → List ℕ → List Ptr → ℕ → ℕ → Returned (Heap × BufferList × Option (ℕ × ℕ)) → Type 0
Found h bs others o l (returns (h', bl', none)) = (l ≡ 0) × Same h bs others h' bl'
Found h bs others o l (returns (h', bl', some (r, q))) =
    (o + l ≤ length bs)
    × (take l (drop q (content_of h' r)) ≡ take l (drop o bs))
    × Same h bs others h' bl'
Found h bs others o l end_of_buffer = length bs < o + l
Found h bs others o l asserts = ⊥
Found h bs others o l undefined = ⊥

-- On a sound list, and while off + len fits in 32 bits, get_contiguous throws end_of_buffer exactly
-- when the range goes beyond the contents. Else it points at memory that holds the bytes of the range,
-- for which it has copied the list into one raw when the range lies in several ptrs; the list keeps
-- its bytes and is sound, and other ptrs keep theirs. The pointer is null only for an empty range. A
-- new raw has the size that was asked for.
pub get_contiguous-Found :
    (uninit : ℕ → List ℕ) (o l : ℕ) (h : Heap) (bl : BufferList) (others : List Ptr)
    → ((n : ℕ) → length (uninit n) ≡ n)
    → IsSound h bl
    → AllWithin h others
    → o + l < 4294967296
    → Found h (bytes h bl) others o l (get_contiguous uninit o l h bl)
unfolding get_contiguous c_str
get_contiguous-Found uninit o l h bl others sized s w b =
    by_if P (ltb bl.len (wrap32 (o + l))) (λ t. ground (arith, wrap32_lem (o + l) b, size, s.1))
      λ t.
        let fits : o + l ≤ total bl.buffers = ground (arith, wrap32_lem (o + l) b, s.1) in
        by_if P (l == 0) (λ u. (ground arith, (refl, s, refl)))
          λ u.
            skipped fits (ground arith) (skip_to bl.buffers o)
              (skip_to-Skipped h bl.buffers o s.0 (omega arith))
  where
    P : Returned (Heap × BufferList × Option (ℕ × ℕ)) → Type 0
    P = Found h (bytes h bl) others o l

    size : length (bytes h bl) ≡ total bl.buffers
    size = length-list_bytes h bl.buffers s.0

    -- The second branch: the pointer into the list that rebuild leaves.
    into_rebuilt : Heap × BufferList → Returned (Heap × BufferList × Option (ℕ × ℕ))
    into_rebuilt r =
        let c = c_str uninit r.0 r.1 in
        let moved = elim c.2 as (λ p. Option (ℕ × ℕ)) [
          | none ↦ none
          | some (raw, off) ↦ some (raw, off + o)
        ] in
        returns (c.0, c.1, moved)

    rebuilt : o + l ≤ total bl.buffers → 0 < l → P (into_rebuilt (rebuild uninit h bl))
    rebuilt f p =
        let full : 0 < bl.len = omega (arith, s.1) in
        let z : o ≡ 0 + o = omega arith in
        subst (λ r. P (into_rebuilt r)) (sym (rebuild_nonempty uninit sized h bl s full))
          (
            omega (arith, size),
            ap (λ c. take l (drop (0 + o) c)) (new_content uninit sized h bl s)
                ∙ ap (λ k. take l (drop k (bytes h bl))) (sym z),
            (
              one_list-bytes uninit sized h bl s,
              one_list-IsSound uninit sized h bl s full,
              others_kept uninit sized h bl s others w,
            ),
          )

    skipped :
        o + l ≤ total bl.buffers
        → 0 < l
        → (r : Returned (List Ptr × ℕ)) → Skipped h bl.buffers o r
        → P (
            r >>= λ s. elim s.0 as (λ ps. Returned (Heap × BufferList × Option (ℕ × ℕ))) [
              | [] ↦ undefined
              | p ∷ ps ↦
                  if ltb p.len (wrap32 (s.1 + l))
                  then into_rebuilt (rebuild uninit h bl)
                  else returns (h, bl, some (p.raw, p.off + s.1))
            ])
    skipped f p (returns ([], o')) (e, t, z, v, i) = absurd (omega arith)
    skipped f p (returns (q ∷ qs, o')) (e, t, z, v, i) =
        by_if P (ltb q.len (wrap32 (o' + l))) (λ u. rebuilt f p)
          λ u.
            let room : o' + l ≤ q.len = ground (arith, wrap32_lem (o' + l) (omega arith)) in
            (
              omega (arith, size),
              ptr_bytes-part h q o' l room
                  ∙ sym (
                      slice-append_left o' l (ptr_bytes h q) (list_bytes h qs)
                        (omega (arith, length-ptr_bytes h q v.0)))
                  ∙ ap (λ t. take l t) (sym e),
              (refl, s, refl),
            )
    skipped f p end_of_buffer x = absurd x
    skipped f p asserts x = absurd x
    skipped f p undefined x = absurd x
