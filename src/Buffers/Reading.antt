-- ===== src/Buffers/Reading.antt =====
-- The iterator of a list, and copy, which goes through the iterator that the list caches
-- (src/buffer.cc, include/msgr/buffer.h). An exception leaves the cached iterator where the code
-- had it; that is left out.
pub mod Slices
pub mod Rounds
pub mod Copy
pub mod Kept
use msg.Prelude.{
  ℕ, zero, suc, ◌+◌, ◌-◌, min, List, [], ◌∷◌, ◌++◌, length, take, drop, ltb, leb, ◌==◌,
  if◌then◌else◌,
}
use msg.Buffers.{
  Heap, Ptr, Place, at_node, past, dangling, Cursor, BufferList, Returned, returns, end_of_buffer,
  asserts, undefined, ◌>>=◌, wrap32, begin,
}
use msg.Buffers.View.{ptr_bytes}

-- `p` is where the iterator stands, as an index and the ptrs from there on.
pub record Iterator : Type 0 where
  pub off : ℕ
  pub index : ℕ
  pub p : List Ptr
  pub p_off : ℕ

-- the loop of advance(o), for the int o > 0; the steps back are left out
unfoldable pub advance_loop : ℕ → List Ptr → ℕ → Returned (ℕ × List Ptr × ℕ)
advance_loop i ps zero = returns (i, ps, 0)
advance_loop i [] (suc n) = end_of_buffer
advance_loop i (p ∷ ps) (suc n) =
    let next = advance_loop (i + 1) ps (suc n - p.len) in
    if leb p.len (suc n) then next else returns (i, p ∷ ps, suc n)

unfoldable pub iterator_advance : ℕ → Iterator → Returned Iterator
iterator_advance o it =
    let moved = advance_loop it.index it.p (wrap32 (it.p_off + o)) >>= λ s.
    returns (record { off = wrap32 (it.off + o); index = s.0; p = s.1; p_off = s.2 }) in
    if o == 0 then returns it else moved

-- seek(o): advance takes an int, which is negative from 2 ^ 31 on, and at the beginning of the list a
-- step back is end_of_buffer.
unfoldable pub seek : ℕ → List Ptr → Returned Iterator
seek o ps =
    let moved = iterator_advance o (record { off = 0; index = 0; p = ps; p_off = 0 }) in
    if ltb o 2147483648 then moved else end_of_buffer

-- copy(len, dest), the loop: what goes to `dest`, and the iterator. A round copies a byte at least.
unfoldable pub copy_loop : ℕ → Heap → ℕ → Iterator → Returned (List ℕ × Iterator)
copy_loop rounds h zero it = returns ([], it)
copy_loop zero h (suc l) it = undefined
copy_loop (suc rounds) h (suc l) it = elim it.p as (λ p. Returned (List ℕ × Iterator)) [
  | [] ↦ end_of_buffer
  | p ∷ ps ↦
      let howmuch = min (p.len - it.p_off) (suc l) in
      let out = take howmuch (drop it.p_off (ptr_bytes h p)) in
      let more = iterator_advance howmuch it >>= λ it'.
      copy_loop rounds h (suc l - howmuch) it' >>= λ r. returns (out ++ r.0, r.1) in
      if p.len == 0 then asserts else more
]

-- An iterator that stands at the end looks again for its offset, since the list may have grown.
unfoldable pub reseek : List Ptr → Iterator → Returned Iterator
reseek ps it = elim it.p as (λ p. Returned Iterator) [ [] ↦ seek it.off ps | p ∷ qs ↦ returns it ]

unfoldable pub iterator_copy : Heap → List Ptr → ℕ → Iterator → Returned (List ℕ × Iterator)
iterator_copy h ps l it = reseek ps it >>= λ it'. copy_loop l h l it'

-- the cached iterator, as an iterator and back; at a freed node it cannot be used
unfoldable pub from_cursor : List Ptr → Cursor → Returned Iterator
from_cursor ps c = elim c.place as (λ p. Returned Iterator) [
  | at_node i ↦ returns (record { off = c.off; index = i; p = drop i ps; p_off = c.p_off })
  | past ↦ returns (record { off = c.off; index = length ps; p = []; p_off = c.p_off })
  | dangling ↦ undefined
]

unfoldable pub to_cursor : Iterator → Cursor
to_cursor it =
    let place = elim it.p as (λ p. Place) [ [] ↦ past | p ∷ ps ↦ at_node it.index ] in
    record { off = it.off; place = place; p_off = it.p_off }

-- list::copy(off, len, dest)
unfoldable pub copy : Heap → ℕ → ℕ → BufferList → Returned (List ℕ × BufferList)
copy h o l bl =
    let placed =
      if bl.last_p.off == o then from_cursor bl.buffers bl.last_p else seek o bl.buffers in
    let copied = placed >>= λ it.
    iterator_copy h bl.buffers l it >>= λ r. returns (r.0, record bl { last_p = to_cursor r.1 }) in
    if ltb bl.len (wrap32 (o + l)) then end_of_buffer else copied
