-- ===== src/Buffers/Contiguous.antt =====
-- One piece of memory for the bytes of a list: rebuild, c_str and get_contiguous, and the reads
-- operator[] and crc32c (src/buffer.cc).
pub mod Rebuilt
pub mod Found
pub mod Flat
use msg.Prelude.{
  ℕ, zero, suc, ◌+◌, ◌-◌, Bool, true, false, List, [], ◌∷◌, ◌++◌, length, take, drop, get_or, ltb,
  leb, ◌==◌, if◌then◌else◌, Option, none, some,
}
use msg.Buffers.{
  Raw, Heap, Ptr, Place, at_node, past, dangling, Cursor, BufferList, Returned, returns,
  end_of_buffer, asserts, undefined, ◌>>=◌, wrap32, skip_to,
}
use msg.Buffers.View.{no_raw, content_of, ptr_bytes}
use msg.Buffers.Memory.{overwrite}

-- After _buffers.clear() an iterator at a node is left at memory that has been freed.
unfoldable pub orphaned : Cursor → Cursor
orphaned c = record c {
  place = elim c.place [ at_node i ↦ dangling | past ↦ past | dangling ↦ dangling ];
}

-- the loop of rebuild(nb): copy_in at `pos` of the new raw, each ptr after the other. Its bounds are
-- asserted; they hold when `_len` is the sum of the lengths, which an invariant of the list is.
unfoldable pub rebuild_loop : Heap → List Ptr → ℕ → List ℕ → ℕ × List ℕ
rebuild_loop h [] pos content = (pos, content)
rebuild_loop h (p ∷ ps) pos content =
    rebuild_loop h ps (pos + p.len) (overwrite pos (ptr_bytes h p) content)

-- What a new raw of a size holds is left to the allocator.
module _ (uninit : ℕ → List ℕ) where
  -- rebuild(): the new raw has the size `_len`. The cached iterator is not reset.
  unfoldable pub rebuild : Heap → BufferList → Heap × BufferList
  rebuild h bl =
      let copied = rebuild_loop h bl.buffers 0 (uninit bl.len) in
      if bl.len == 0 then (h, record bl { buffers = []; last_p = orphaned bl.last_p }) else (
        h ++ (record { content = copied.1; shareable = true } ∷ []),
        record bl {
          buffers = record { raw = length h; off = 0; len = bl.len } ∷ [];
          memcopy_count = wrap32 (bl.memcopy_count + copied.0);
          last_p = orphaned bl.last_p;
        },
      )

  -- c_str(): the pointer is a raw and an offset in it, or null.
  unfoldable pub c_str : Heap → BufferList → Heap × BufferList × Option (ℕ × ℕ)
  c_str h bl =
      let front = λ (ps : List Ptr). elim ps as (λ ps. Option (ℕ × ℕ)) [
        | [] ↦ none
        | p ∷ ps ↦ some (p.raw, p.off)
      ] in
      let r = rebuild h bl in
      elim bl.buffers as (λ ps. Heap × BufferList × Option (ℕ × ℕ)) [
        | [] ↦ (h, bl, none)
        | p ∷ ps ↦ elim ps as (λ ps. Heap × BufferList × Option (ℕ × ℕ)) [
          | [] ↦ (h, bl, some (p.raw, p.off))
          | q ∷ qs ↦ (r.0, r.1, front r.1.buffers)
        ]
      ]

  -- get_contiguous(orig_off, len): the pointer into the ptr that holds the range, or else into the
  -- rebuilt list
  unfoldable pub get_contiguous :
      ℕ → ℕ → Heap → BufferList → Returned (Heap × BufferList × Option (ℕ × ℕ))
  get_contiguous orig_off l h bl =
      let r = rebuild h bl in
      let c = c_str r.0 r.1 in
      let moved = elim c.2 as (λ p. Option (ℕ × ℕ)) [
        | none ↦ none
        | some (raw, off) ↦ some (raw, off + orig_off)
      ] in
      let found = skip_to bl.buffers orig_off >>= λ s.
      elim s.0 as (λ ps. Returned (Heap × BufferList × Option (ℕ × ℕ))) [
        | [] ↦ undefined
        | p ∷ ps ↦
            if ltb p.len (wrap32 (s.1 + l))
            then returns (c.0, c.1, moved)
            else returns (h, bl, some (p.raw, p.off + s.1))
      ] in
      if ltb bl.len (wrap32 (orig_off + l))
      then end_of_buffer
      else (if l == 0 then returns (h, bl, none) else found)

-- operator[](n)
unfoldable pub char_loop : Heap → List Ptr → ℕ → Returned ℕ
char_loop h [] n = undefined
char_loop h (p ∷ ps) n =
    let rest = char_loop h ps (n - p.len) in
    if leb p.len n then rest else returns (get_or (content_of h p.raw) (p.off + n) 0)

unfoldable pub char_at : Heap → BufferList → ℕ → Returned ℕ
char_at h bl n = if leb bl.len n then end_of_buffer else char_loop h bl.buffers n

-- crc32c(crc), over msgr_crc32c, which is chosen for the processor
module _ (msgr_crc32c : ℕ → List ℕ → ℕ) where
  unfoldable pub crc_loop : Heap → List Ptr → ℕ → ℕ
  crc_loop h [] crc = crc
  crc_loop h (p ∷ ps) crc =
      crc_loop h ps (if p.len == 0 then crc else msgr_crc32c crc (ptr_bytes h p))

  unfoldable pub crc32c : Heap → BufferList → ℕ → ℕ
  crc32c h bl crc = crc_loop h bl.buffers crc
