-- ===== src/Buffers/Claim.antt =====
-- Taking over the ptrs of another list: make_shareable, claim, claim_append, claim_prepend
-- (src/buffer.cc, include/msgr/buffer.h).
pub mod Moves
use msg.Prelude.{
  ℕ, ◌+◌, ◌==◌, Bool, true, false, List, [], ◌∷◌, ◌++◌, length, get_or, if◌then◌else◌,
}
use msg.Buffers.{Raw, Heap, Ptr, BufferList, wrap32, begin, shifted, clear}
use msg.Buffers.View.{no_raw, content_of}

-- ptr::make_shareable: a raw that cannot be shared is cloned, into one that can.
unfoldable pub make_ptr_shareable : Ptr → Heap → Ptr × Heap
make_ptr_shareable p h = if (get_or h p.raw no_raw).shareable then (p, h) else (
  record p { raw = length h },
  h ++ (record { content = content_of h p.raw; shareable = true } ∷ []),
)

unfoldable pub make_shareable : List Ptr → Heap → List Ptr × Heap
make_shareable [] h = ([], h)
make_shareable (p ∷ ps) h =
    let s = make_ptr_shareable p h in let rest = make_shareable ps s.1 in (s.0 ∷ rest.0, rest.1)

-- The ptrs that the claims take, with the flag CLAIM_ALLOW_NONSHAREABLE or without.
unfoldable pub shared_for : Bool → List Ptr → Heap → List Ptr × Heap
shared_for allow_nonshareable ps h = if allow_nonshareable then (ps, h) else make_shareable ps h

-- What a claim leaves of the other list.
abbrev pub left_behind : BufferList → BufferList
left_behind other = record other { buffers = []; len = 0; last_p = begin [] }

unfoldable pub claim_append : Bool → BufferList → BufferList → Heap → Heap × BufferList × BufferList
claim_append flags other bl h =
    let s = shared_for flags other.buffers h in
    (
      s.1,
      record bl { buffers = bl.buffers ++ s.0; len = wrap32 (bl.len + other.len) },
      left_behind other,
    )

unfoldable pub claim_prepend :
    Bool → BufferList → BufferList → Heap → Heap × BufferList × BufferList
claim_prepend flags other bl h =
    let s = shared_for flags other.buffers h in
    (
      s.1,
      record bl {
        buffers = s.0 ++ bl.buffers;
        len = wrap32 (bl.len + other.len);
        last_p = shifted (length s.0) bl.last_p;
      },
      left_behind other,
    )

unfoldable pub claim : Bool → BufferList → BufferList → Heap → Heap × BufferList × BufferList
claim flags other bl h = claim_append flags other (clear bl) h
