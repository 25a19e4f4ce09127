-- ===== src/Buffers/Claim/Moves.antt =====
-- A claim moves the bytes of one list to another, and keeps two lists apart (src/buffer.cc).
use msg.Prelude.{
  ℕ, ◌+◌, ◌<◌, ◌≡◌, refl, ap, ap₂, ◌∙◌, arith, Bool, true, List, [], ◌∷◌, ◌++◌, length, take, drop,
  get_or, by_if, length-append,
}
use msg.Buffers.{Raw, Heap, Ptr, BufferList}
use msg.Buffers.View.{
  no_raw, content_of, ptr_bytes, list_bytes, bytes, total, IsWithin, AllWithin, IsSound,
  list_bytes-append, total-append, AllWithin-append,
}
use msg.Buffers.Substr.{wrap32_lem}
use msg.Buffers.Memory.Heaps.{
  Kept, AllKept, list_bytes-AllKept, AllKept-AllWithin, new_raw-Kept, get_or-append_end,
}
use msg.Buffers.Claim.{make_ptr_shareable, make_shareable, shared_for, claim_append, claim_prepend}

AllKept-refl : (h : Heap) (ps : List Ptr) → AllWithin h ps → AllKept h h ps
AllKept-refl h [] w = tt
AllKept-refl h (p ∷ ps) w = ((refl, w.0), AllKept-refl h ps w.1)

AllKept-trans : (h h' k : Heap) (ps : List Ptr) → AllKept h h' ps → AllKept h' k ps → AllKept h k ps
AllKept-trans h h' k [] a b = tt
AllKept-trans h h' k (p ∷ ps) a b = ((b.0.0 ∙ a.0.0, b.0.1), AllKept-trans h h' k ps a.1 b.1)

-- From one heap to the next every ptr within the first keeps its bytes.
abbrev Grows : Heap → Heap → Type 0
Grows h h' = (q : Ptr) → IsWithin h q → Kept h h' q

Grows-AllKept : (h h' : Heap) (ps : List Ptr) → Grows h h' → AllWithin h ps → AllKept h h' ps
Grows-AllKept h h' [] g w = tt
Grows-AllKept h h' (p ∷ ps) g w = (g p w.0, Grows-AllKept h h' ps g w.1)

-- The ptrs of `s` stand in for `ps`.
abbrev StandsIn : Heap → List Ptr → List Ptr × Heap → Type 0
StandsIn h ps s =
    (list_bytes s.1 s.0 ≡ list_bytes h ps)
    × AllWithin s.1 s.0
    × (total s.0 ≡ total ps)
    × Grows h s.1

make_ptr_shareable_lem :
    (p : Ptr) (h : Heap)
    → IsWithin h p
    → let s = make_ptr_shareable p h in
      (ptr_bytes s.1 s.0 ≡ ptr_bytes h p) × IsWithin s.1 s.0 × (s.0.len ≡ p.len) × Grows h s.1
unfolding make_ptr_shareable
make_ptr_shareable_lem p h w =
    by_if
      (λ (s : Ptr × Heap).
        (ptr_bytes s.1 s.0 ≡ ptr_bytes h p) × IsWithin s.1 s.0 × (s.0.len ≡ p.len) × Grows h s.1)
      (get_or h p.raw no_raw).shareable (λ t. (refl, w, refl, λ q v. (refl, v)))
      λ t. (
        ap (λ c. take p.len (drop p.off c)) same,
        (
          omega (arith, length-append h (x ∷ [])),
          omega (arith, ap (λ c. length c) same, w.1),
          w.2,
          omega (arith, ap (λ c. length c) same, w.3),
        ),
        refl,
        new_raw-Kept h x,
      )
  where
    x : Raw
    x = record { content = content_of h p.raw; shareable = true }

    same : content_of (h ++ (x ∷ [])) (length h) ≡ content_of h p.raw
    same = ap (λ r. r.content) (get_or-append_end h x no_raw)

make_shareable-StandsIn :
    (ps : List Ptr) (h : Heap) → AllWithin h ps → StandsIn h ps (make_shareable ps h)
unfolding make_shareable
make_shareable-StandsIn [] h w = (refl, tt, refl, λ q v. (refl, v))
make_shareable-StandsIn (p ∷ ps) h w =
    let s = make_ptr_shareable p h in
    let a = make_ptr_shareable_lem p h w.0 in
    let k = Grows-AllKept h s.1 ps a.3 w.1 in
    let r = make_shareable ps s.1 in
    let b = make_shareable-StandsIn ps s.1 (AllKept-AllWithin h s.1 ps k) in
    let c = b.3 s.0 a.1 in
    (
      ap₂ ◌++◌ (c.0 ∙ a.0) (b.0 ∙ list_bytes-AllKept h s.1 ps k),
      (c.1, b.1),
      omega (arith, a.2, b.2),
      λ q v. let d = a.3 q v in let e = b.3 q d.1 in (e.0 ∙ d.0, e.1),
    )

shared_for-StandsIn :
    (flags : Bool) (ps : List Ptr) (h : Heap)
    → AllWithin h ps
    → StandsIn h ps (shared_for flags ps h)
unfolding shared_for
shared_for-StandsIn flags ps h w =
    by_if (StandsIn h ps) flags (λ t. (refl, w, refl, λ q v. (refl, v)))
      λ t. make_shareable-StandsIn ps h w

-- A claim in the heap `h` gives the list `bl'` the bytes `xs` and empties the other list.
abbrev pub Claimed : Heap → List ℕ → List Ptr → Heap × BufferList × BufferList → Type 0
Claimed h xs others (h', bl', other') =
    (bytes h' bl' ≡ xs)
    × IsSound h' bl'
    × (bytes h' other' ≡ [])
    × IsSound h' other'
    × (list_bytes h' others ≡ list_bytes h others)

module _ (flags : Bool) (other bl : BufferList) (h : Heap) (others : List Ptr)
    (so : IsSound h other) (s : IsSound h bl) (w : AllWithin h others)
    (f : bl.len + other.len < 4294967296) where
  -- Whatever the flag, claim_append puts the bytes of the other list behind those of a sound list and
  -- empties the other list; both are sound, and no other ptr of the heap changes its bytes, also where
  -- raws that cannot be shared are cloned. The sum of the lengths fits in 32 bits.
  pub claim_append-Claimed :
      Claimed h (bytes h bl ++ bytes h other) others (claim_append flags other bl h)
  unfolding claim_append
  claim_append-Claimed =
      let r = shared_for flags other.buffers h in
      let a = shared_for-StandsIn flags other.buffers h so.0 in
      let k = Grows-AllKept h r.1 bl.buffers a.3 s.0 in
      let sum = wrap32_lem (bl.len + other.len) f in
      (
        list_bytes-append r.1 bl.buffers r.0 ∙ ap₂ ◌++◌ (list_bytes-AllKept h r.1 bl.buffers k) a.0,
        (
          AllWithin-append r.1 bl.buffers r.0 (AllKept-AllWithin h r.1 bl.buffers k) a.1,
          omega (arith, sum, total-append bl.buffers r.0, a.2, s.1, so.1),
          omega (arith, sum),
        ),
        refl,
        (tt, refl, omega arith),
        list_bytes-AllKept h r.1 others (Grows-AllKept h r.1 others a.3 w),
      )

  pub claim_prepend-Claimed :
      Claimed h (bytes h other ++ bytes h bl) others (claim_prepend flags other bl h)
  unfolding claim_prepend
  claim_prepend-Claimed =
      let r = shared_for flags other.buffers h in
      let a = shared_for-StandsIn flags other.buffers h so.0 in
      let k = Grows-AllKept h r.1 bl.buffers a.3 s.0 in
      let sum = wrap32_lem (bl.len + other.len) f in
      (
        list_bytes-append r.1 r.0 bl.buffers ∙ ap₂ ◌++◌ a.0 (list_bytes-AllKept h r.1 bl.buffers k),
        (
          AllWithin-append r.1 r.0 bl.buffers a.1 (AllKept-AllWithin h r.1 bl.buffers k),
          omega (arith, sum, total-append r.0 bl.buffers, a.2, s.1, so.1),
          omega (arith, sum),
        ),
        refl,
        (tt, refl, omega arith),
        list_bytes-AllKept h r.1 others (Grows-AllKept h r.1 others a.3 w),
      )
