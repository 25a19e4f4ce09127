-- ===== src/Buffers/Memory.antt =====
-- Writing into raws: append of characters with the append_buffer that a list keeps for them
-- (src/buffer.cc, include/msgr/buffer.h).
pub mod Heaps
pub mod Together
pub mod Filling
mod Fresh
pub mod Appending
use msg.Prelude.{
  ℕ, zero, suc, ◌+◌, ◌-◌, ◌*◌, ◌/◌, min, List, [], ◌∷◌, ◌++◌, length, take, drop, set, get_or, leb,
  ◌==◌, if◌then◌else◌, true, Option, none, some,
}
use msg.Buffers.{
  Raw, Heap, Ptr, BufferList, Returned, returns, asserts, undefined, ◌>>=◌, wrap32, append_part,
}
use msg.Buffers.View.{no_raw, content_of}

abbrev pub page_size : ℕ
page_size = 4096

-- ptr::unused_tail_length
unfoldable pub unused_tail_length : Heap → Option Ptr → ℕ
unused_tail_length h none = 0
unused_tail_length h (some p) = length (content_of h p.raw) - (p.off + p.len)

-- memcpy of `src` to offset `o` of a raw
abbrev pub overwrite : ℕ → List ℕ → List ℕ → List ℕ
overwrite o src c = take o c ++ (src ++ drop (o + length src) c)

abbrev pub write_raw : ℕ → ℕ → List ℕ → Heap → Heap
write_raw r o src h =
    set h r (record (get_or h r no_raw) { content = overwrite o src (content_of h r) })

-- ptr::append(p, l)
unfoldable pub ptr_append : List ℕ → Ptr → Heap → Returned (Heap × Ptr)
ptr_append src p h =
    let h' = write_raw p.raw (p.off + p.len) src h in
    if leb (length src) (unused_tail_length h (some p))
    then returns (h', record p { len = p.len + length src })
    else asserts

-- the branch of append(data, len) that fills the append_buffer
unfoldable pub fill : List ℕ → Heap → BufferList → Returned (Heap × BufferList)
fill src h bl =
    let filled : Ptr → Returned (Heap × BufferList) = λ p. ptr_append src p h >>= λ s.
    append_part s.1 (s.1.off + s.1.len - length src) (length src)
      (record bl { append_buffer = some s.1 })
    >>= λ bl'. returns (s.0, bl') in
    elim bl.append_buffer as (λ a. Returned (Heap × BufferList)) [
      | none ↦ asserts
      | some p ↦ filled p
    ]

-- What a new raw of a size holds is left to the allocator.
module _ (uninit : ℕ → List ℕ) where
  -- create_page_aligned(alen), with the length set to 0
  unfoldable pub new_append_buffer : ℕ → Heap → BufferList → Heap × BufferList
  new_append_buffer len h bl =
      let alen = wrap32 (page_size * ((len - 1) / page_size + 1)) in
      (
        h ++ (record { content = uninit alen; shareable = true } ∷ []),
        record bl { append_buffer = some (record { raw = length h; off = 0; len = 0 }) },
      )

  -- append(data, len): a round fills what there is, and makes a new buffer for the rest.
  unfoldable pub append_loop : ℕ → List ℕ → Heap → BufferList → Returned (Heap × BufferList)
  append_loop rounds [] h bl = returns (h, bl)
  append_loop zero (c ∷ cs) h bl = undefined
  append_loop (suc rounds) (c ∷ cs) h bl =
      let gap = min (unused_tail_length h bl.append_buffer) (length (c ∷ cs)) in
      let filled = if gap == 0 then returns (h, bl) else fill (take gap (c ∷ cs)) h bl in
      filled >>= λ s.
      let n = new_append_buffer (length (c ∷ cs) - gap) s.0 s.1 in
      let rest = append_loop rounds (drop gap (c ∷ cs)) n.0 n.1 in
      if length (c ∷ cs) - gap == 0 then returns s else rest

  -- The second round finds a buffer that is large enough.
  unfoldable pub append_chars : List ℕ → Heap → BufferList → Returned (Heap × BufferList)
  append_chars src h bl = append_loop 2 src h bl

  -- append(c)
  unfoldable pub append_char : ℕ → Heap → BufferList → Returned (Heap × BufferList)
  append_char c h bl =
      let n = new_append_buffer page_size h bl in
      let s = if unused_tail_length h bl.append_buffer == 0 then n else (h, bl) in
      fill (c ∷ []) s.0 s.1
