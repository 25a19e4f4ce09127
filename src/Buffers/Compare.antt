-- ===== src/Buffers/Compare.antt =====
-- contents_equal, which compares two lists buffer by buffer (src/buffer.cc). memcmp is the comparison
-- of as many bytes on either side.
pub mod Decides
use msg.Prelude.{
  ℕ, zero, suc, ◌+◌, ◌-◌, min, Bool, true, false, List, [], ◌∷◌, length, take, drop, ◌==◌, ◌&&◌,
  if◌then◌else◌,
}
use msg.Buffers.{Heap, Ptr, BufferList, Returned, returns, asserts, undefined}
use msg.Buffers.View.{ptr_bytes}

-- memcmp(…) == 0, on blocks of one length
abbrev pub same_bytes : List ℕ → List ℕ → Bool
same_bytes [] [] = true
same_bytes [] (y ∷ ys) = false
same_bytes (x ∷ xs) [] = false
same_bytes (x ∷ xs) (y ∷ ys) = (x == y) && same_bytes xs ys

-- An iterator and its offset move on by a part of the ptr at hand.
unfoldable pub move_on : Ptr → List Ptr → ℕ → List Ptr × ℕ
move_on p ps o = if o == p.len then (ps, 0) else (p ∷ ps, o)

-- A round ends a ptr of one list at least, so `rounds` is the number of the ptrs.
unfoldable pub equal_loop : ℕ → Heap → List Ptr → ℕ → List Ptr → ℕ → Returned Bool
equal_loop rounds h [] aoff [] boff = returns true
equal_loop rounds h [] aoff (b ∷ bs) boff = asserts
equal_loop rounds h (a ∷ as') aoff [] boff = undefined
equal_loop zero h (a ∷ as') aoff (b ∷ bs) boff = undefined
equal_loop (suc rounds) h (a ∷ as') aoff (b ∷ bs) boff =
    let len = min (a.len - aoff) (b.len - boff) in
    let x = move_on a as' (aoff + len) in
    let y = move_on b bs (boff + len) in
    let rest = equal_loop rounds h x.0 x.1 y.0 y.1 in
    if same_bytes (take len (drop aoff (ptr_bytes h a))) (take len (drop boff (ptr_bytes h b)))
    then rest
    else returns false

unfoldable pub contents_equal : Heap → BufferList → BufferList → Returned Bool
contents_equal h bl other =
    let rounds = length bl.buffers + length other.buffers in
    let loop = equal_loop rounds h bl.buffers 0 other.buffers 0 in
    if bl.len == other.len then loop else returns false
