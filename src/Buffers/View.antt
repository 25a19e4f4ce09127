-- ===== src/Buffers/View.antt =====
-- The bytes that ptrs and lists stand for, and when they are within their raws (src/buffer.cc).
use msg.Prelude.{
  ℕ, ◌+◌, ◌≤◌, ◌<◌, ◌≡◌, refl, sym, ap, ◌∙◌, arith, true, List, [], ◌∷◌, ◌++◌, length, take, drop,
  get_or, append_assoc, length-append, length-take, length-drop,
}
use msg.Buffers.{Raw, Heap, Ptr, BufferList}

abbrev pub no_raw : Raw
no_raw = record { content = []; shareable = true }

abbrev pub content_of : Heap → ℕ → List ℕ
content_of h r = (get_or h r no_raw).content

abbrev pub ptr_bytes : Heap → Ptr → List ℕ
ptr_bytes h p = take p.len (drop p.off (content_of h p.raw))

abbrev pub list_bytes : Heap → List Ptr → List ℕ
list_bytes h [] = []
list_bytes h (p ∷ ps) = ptr_bytes h p ++ list_bytes h ps

-- What the abstract view of a list keeps.
abbrev pub bytes : Heap → BufferList → List ℕ
bytes h bl = list_bytes h bl.buffers

abbrev pub total : List Ptr → ℕ
total [] = 0
total (p ∷ ps) = p.len + total ps

-- A ptr of a list is not empty and lies within a raw of the heap.
-- The length of a raw is an unsigned.
abbrev pub IsWithin : Heap → Ptr → Type 0
IsWithin h p =
    (p.raw < length h)
    × (p.off + p.len ≤ length (content_of h p.raw))
    × (0 < p.len)
    × (length (content_of h p.raw) < 4294967296)

abbrev pub AllWithin : Heap → List Ptr → Type 0
AllWithin h [] = Unit
AllWithin h (p ∷ ps) = IsWithin h p × AllWithin h ps

-- The invariant of a list: `len` is the number of its bytes.
abbrev pub IsSound : Heap → BufferList → Type 0
IsSound h bl = AllWithin h bl.buffers × (bl.len ≡ total bl.buffers) × (bl.len < 4294967296)

module _ (h : Heap) where
  pub length-ptr_bytes : (p : Ptr) → IsWithin h p → length (ptr_bytes h p) ≡ p.len
  length-ptr_bytes p w =
      length-take p.len (drop p.off (content_of h p.raw))
      ∙ omega (arith, length-drop p.off (content_of h p.raw), w.1)

  pub length-list_bytes : (ps : List Ptr) → AllWithin h ps → length (list_bytes h ps) ≡ total ps
  length-list_bytes [] w = refl
  length-list_bytes (p ∷ ps) w =
      length-append (ptr_bytes h p) (list_bytes h ps)
      ∙ omega (arith, length-ptr_bytes p w.0, length-list_bytes ps w.1)

  pub list_bytes-append :
      (ps qs : List Ptr) → list_bytes h (ps ++ qs) ≡ list_bytes h ps ++ list_bytes h qs
  list_bytes-append [] qs = refl
  list_bytes-append (p ∷ ps) qs =
      ap (λ t. ptr_bytes h p ++ t) (list_bytes-append ps qs)
      ∙ sym (append_assoc (ptr_bytes h p) (list_bytes h ps) (list_bytes h qs))

pub total-append : (ps qs : List Ptr) → total (ps ++ qs) ≡ total ps + total qs
total-append [] qs = omega arith
total-append (p ∷ ps) qs = omega (arith, total-append ps qs)

pub AllWithin-append :
    (h : Heap) (ps qs : List Ptr) → AllWithin h ps → AllWithin h qs → AllWithin h (ps ++ qs)
AllWithin-append h [] qs a b = b
AllWithin-append h (p ∷ ps) qs a b = (a.0, AllWithin-append h ps qs a.1 b)
