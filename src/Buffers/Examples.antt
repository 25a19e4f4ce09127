-- ===== src/Buffers/Examples.antt =====
-- The theorems of the buffers on two lists that share the raws of a small heap.
use msg.Prelude.{
  ℕ, ◌≡◌, refl, arith, true, false, List, [], ◌∷◌, ◌++◌, replicate, length-replicate, take, drop,
  Option, none, some,
}
use msg.Buffers
use msg.Buffers.{
  Raw, Heap, Ptr, Place, at_node, past, Cursor, BufferList, Returned, returns, end_of_buffer,
  undefined, shifted, wrap32, substr_of, push_front,
}
use msg.Buffers.View.{bytes, IsSound}
use msg.Buffers.Substr.{Slice, substr_of-Slice}
use msg.Buffers.Splice.{splice_skip, claimed, sub32, splice_loop, splice}
use msg.Buffers.Splice.Cut.{Removed, splice-Removed}
use msg.Buffers.Compare.{contents_equal}
use msg.Buffers.Compare.Decides.{DecidesContents, contents_equal-DecidesContents}
use msg.Buffers.Memory.{append_chars}
use msg.Buffers.Memory.Together.{Together, Appends}
use msg.Buffers.Memory.Appending.{append_chars-Appends}
use msg.Buffers.Claim.{claim_append}
use msg.Buffers.Claim.Moves.{Claimed, claim_append-Claimed}
use msg.Buffers.Contiguous.{orphaned, rebuild, get_contiguous}
use msg.Buffers.Contiguous.Found.{Found, get_contiguous-Found}
use msg.Buffers.Reading.{
  advance_loop, iterator_advance, copy_loop, reseek, iterator_copy, from_cursor, to_cursor, copy,
}
use msg.Buffers.Reading.Copy.{Reads, copy-Reads}

abbrev letters : List ℕ
letters = 97 ∷ (98 ∷ (99 ∷ (100 ∷ (101 ∷ []))))

-- The second raw cannot be shared.
abbrev heap : Heap
heap =
    record { content = letters; shareable = true }
    ∷ (record { content = 120 ∷ (121 ∷ (122 ∷ [])); shareable = false } ∷ [])

abbrev ptr : ℕ → ℕ → ℕ → Ptr
ptr r o l = record { raw = r; off = o; len = l }

-- `bcxyz`, whose cached iterator stands at its second byte
abbrev one : BufferList
one = record {
  buffers = ptr 0 1 2 ∷ (ptr 1 0 3 ∷ []);
  len = 5;
  memcopy_count = 0;
  append_buffer = some (ptr 0 0 3);
  last_p = record { off = 1; place = at_node 0; p_off = 1 };
}

-- `ab`, with no small appends yet
abbrev two : BufferList
two = record {
  buffers = ptr 0 0 1 ∷ (ptr 0 1 1 ∷ []);
  len = 2;
  memcopy_count = 0;
  append_buffer = none;
  last_p = record { off = 0; place = past; p_off = 0 };
}

one_sound : IsSound heap one
one_sound = (
  (
    (omega arith, omega arith, omega arith, omega arith),
    ((omega arith, omega arith, omega arith, omega arith), tt),
  ),
  omega arith,
  omega arith,
)

two_sound : IsSound heap two
two_sound = (
  (
    (omega arith, omega arith, omega arith, omega arith),
    ((omega arith, omega arith, omega arith, omega arith), tt),
  ),
  omega arith,
  omega arith,
)

together : Together heap one two
together = record {
  sound = one_sound;
  other_sound = two_sound;
  buffer = (omega arith, refl, omega arith, omega arith);
  other_buffer = tt;
  apart = tt;
  own = (λ e. omega arith, (λ e. absurd (omega arith), tt));
  others = (λ e. omega arith, (λ e. omega arith, tt));
  of_other = (tt, (tt, tt));
  other_own = (tt, (tt, tt));
}

substr_of-Slice_example : Slice heap (bytes heap one) 1 3 (substr_of one 1 3 two)
substr_of-Slice_example = substr_of-Slice heap one two 1 3 one_sound (omega arith)

splice-Removed_example : Removed heap (bytes heap one) 1 3 (some two) (splice 1 3 (some two) one)
splice-Removed_example =
    splice-Removed heap 1 3 (some two) one one_sound (two_sound, omega arith) (omega arith)
      (omega arith)

contents_equal-DecidesContents_example :
    DecidesContents heap (one, one_sound) (two, two_sound) (contents_equal heap one two)
contents_equal-DecidesContents_example =
    contents_equal-DecidesContents heap (one, one_sound) (two, two_sound)

append_chars-Appends_example :
    Appends heap one two letters (append_chars (λ n. replicate n 0) letters heap one)
append_chars-Appends_example =
    append_chars-Appends (λ n. replicate n 0) letters heap one two (λ n. length-replicate n 0)
      together (omega arith)

claim_append-Claimed_example :
    Claimed heap (bytes heap two ++ bytes heap one) (two.buffers) (claim_append false one two heap)
claim_append-Claimed_example =
    claim_append-Claimed false one two heap two.buffers one_sound two_sound two_sound.0
      (omega arith)

copy-Reads_example : Reads heap (bytes heap one) 1 3 (copy heap 1 3 one)
copy-Reads_example =
    copy-Reads heap 1 3 one one_sound (omega arith)
      ((refl, refl, omega arith, omega arith, one_sound.0, omega arith, refl), λ e. absurd (cc))
      (omega arith)

get_contiguous-Found_example :
    Found heap (bytes heap one) two.buffers 1 3 (get_contiguous (λ n. replicate n 0) 1 3 heap one)
get_contiguous-Found_example =
    get_contiguous-Found (λ n. replicate n 0) 1 3 heap one two.buffers (λ n. length-replicate n 0)
      one_sound two_sound.0 (omega arith)

abbrev out : Returned (List ℕ × BufferList) → List ℕ
out (returns (bs, bl)) = bs
out end_of_buffer = []
out msg.Buffers.asserts = []
out undefined = []

-- After push_front the cached iterator still has its old offset: copy answers the byte 99 for the
-- offset 1 of the list `xyzbcxyz`, which is 121.
stale_copy : out (copy heap 1 1 (push_front (ptr 1 0 3) one)) ≡ 99 ∷ []
unfolding copy push_front shifted wrap32 from_cursor iterator_copy reseek copy_loop iterator_advance
    advance_loop to_cursor
stale_copy = refl

stale_bytes : take 1 (drop 1 (bytes heap (push_front (ptr 1 0 3) one))) ≡ 121 ∷ []
unfolding push_front shifted wrap32
stale_bytes = refl

-- After rebuild the cached iterator is at a node that has been freed.
freed_copy : let r = rebuild (λ n. replicate n 0) heap one in copy r.0 1 1 r.1 ≡ undefined
unfolding copy rebuild orphaned wrap32 from_cursor
freed_copy = refl

abbrev ptrs : Returned (BufferList × Option BufferList) → List Ptr
ptrs (returns (bl, c)) = bl.buffers
ptrs end_of_buffer = []
ptrs msg.Buffers.asserts = []
ptrs undefined = []

-- A length that makes off + len wrap leaves the list with a byte twice.
splice_wraps :
    ptrs (splice 1 4294967295 none (record one { buffers = ptr 0 0 3 ∷ []; len = 3 }))
    ≡ ptr 0 0 1 ∷ (ptr 0 0 3 ∷ [])
unfolding splice splice_skip splice_loop claimed sub32 wrap32
splice_wraps = refl
