-- ===== src/Buffers/Substr.antt =====
-- substr_of cuts the same bytes as a slice of the flat contents (src/buffer.cc).
use msg.Prelude.{
  ℕ, zero, suc, ◌+◌, ◌-◌, ◌≤◌, ◌<◌, ◌≡◌, refl, sym, ap, ◌∙◌, subst, arith, List, [], ◌∷◌, ◌++◌,
  length, take, drop, ltb, leb, by_if, append-nil, drop-drop, take-take, drop-take,
  drop-append_right, length-drop, take_all, slice-append_left, slice-append_through,
}
use native.Mathlib.Nat.{mod-eq_of_lt}
use msg.Buffers.{
  Heap, Ptr, BufferList, Returned, returns, end_of_buffer, asserts, undefined, ◌>>=◌, wrap32, part,
  clear, skip_to, collect, substr_loop, substr_of,
}
use msg.Buffers.View.{
  content_of, ptr_bytes, list_bytes, bytes, total, IsWithin, AllWithin, IsSound, length-ptr_bytes,
  length-list_bytes,
}

pub wrap32_lem : (n : ℕ) → n < 4294967296 → wrap32 n ≡ n
unfolding wrap32
wrap32_lem n h = mod-eq_of_lt h

-- The first ptr of the list reaches beyond the offset.
abbrev pub Inside : ℕ → List Ptr → Type 0
Inside o [] = Unit
Inside o (p ∷ ps) = o < p.len

module _ (h : Heap) where
  pub ptr_bytes-part :
      (p : Ptr) (o l : ℕ)
      → o + l ≤ p.len
      → ptr_bytes h (part p o l) ≡ take l (drop o (ptr_bytes h p))
  ptr_bytes-part p o l e =
      let c : List ℕ = drop p.off (content_of h p.raw) in
      ap (λ t. take l t) (sym (drop-drop o p.off (content_of h p.raw)))
      ∙ sym (take-take l (p.len - o) (drop o c) (omega arith))
      ∙ ap (λ t. take l t) (sym (drop-take o p.len c))

  pub ptr_bytes-rest :
      (p : Ptr) (o : ℕ)
      → IsWithin h p
      → o ≤ p.len
      → ptr_bytes h (part p o (p.len - o)) ≡ drop o (ptr_bytes h p)
  ptr_bytes-rest p o w e =
      ptr_bytes-part p o (p.len - o) (omega arith)
      ∙ take_all (p.len - o) (drop o (ptr_bytes h p))
          (omega (arith, length-drop o (ptr_bytes h p), length-ptr_bytes h p w))

  pub part-IsWithin :
      (p : Ptr) (o l : ℕ) → IsWithin h p → o + l ≤ p.len → 0 < l → IsWithin h (part p o l)
  part-IsWithin p o l w e n = (w.0, omega (arith, w.1), n, w.3)

  pub zero-Inside : (ps : List Ptr) → AllWithin h ps → Inside 0 ps
  zero-Inside [] w = tt
  zero-Inside (p ∷ ps) w = w.0.2

  -- What is left to cut after the skipped ptrs.
  abbrev pub Skipped : List Ptr → ℕ → Returned (List Ptr × ℕ) → Type 0
  Skipped ps o (returns (qs, o')) =
      (drop o (list_bytes h ps) ≡ drop o' (list_bytes h qs))
      × (total qs + o ≡ total ps + o')
      × (o' ≤ o)
      × AllWithin h qs
      × Inside o' qs
  Skipped ps o end_of_buffer = ⊥
  Skipped ps o asserts = ⊥
  Skipped ps o undefined = ⊥

  pub skip_to-Skipped :
      (ps : List Ptr) (o : ℕ) → AllWithin h ps → o ≤ total ps → Skipped ps o (skip_to ps o)
  unfolding skip_to
  skip_to-Skipped ps zero w e = (refl, omega arith, omega arith, w, zero-Inside ps w)
  skip_to-Skipped [] (suc n) w e = elim e [ ]
  skip_to-Skipped (p ∷ ps) (suc n) w e =
      by_if (Skipped (p ∷ ps) (suc n)) (leb p.len (suc n))
        (λ t.
          later (skip_to ps (suc n - p.len)) (ground arith)
            (skip_to-Skipped ps (suc n - p.len) w.1 (ground arith)))
        λ t. (refl, omega arith, omega arith, w, ground arith)
    where
      later :
          (r : Returned (List Ptr × ℕ))
          → p.len ≤ suc n
          → Skipped ps (suc n - p.len) r
          → Skipped (p ∷ ps) (suc n) r
      later (returns (qs, o')) le (s, t, z, u, i) = (
        drop-append_right (suc n) (ptr_bytes h p) (list_bytes h ps)
              (omega (arith, length-ptr_bytes h p w.0))
            ∙ ap (λ k. drop k (list_bytes h ps)) (omega (arith, length-ptr_bytes h p w.0))
            ∙ s,
        omega arith,
        omega arith,
        u,
        i,
      )
      later end_of_buffer le x = x
      later asserts le x = x
      later undefined le x = x

  -- The ptrs that are cut: they lie within their raws and hold the bytes `bs`, `l` of them.
  abbrev pub Cuts : List ℕ → ℕ → Returned (List Ptr × ℕ) → Type 0
  Cuts bs l (returns (qs, n)) = (list_bytes h qs ≡ bs) × AllWithin h qs × (n ≡ l) × (total qs ≡ l)
  Cuts bs l end_of_buffer = ⊥
  Cuts bs l asserts = ⊥
  Cuts bs l undefined = ⊥

  collect-Cuts :
      (p : Ptr) (bs : List ℕ) (l : ℕ) (r : Returned (List Ptr × ℕ))
      → IsWithin h p
      → Cuts bs l r
      → Cuts (ptr_bytes h p ++ bs) (p.len + l) (collect p r)
  unfolding collect
  collect-Cuts p bs l (returns (qs, n)) w (e, u, a, b) =
      (ap (λ t. ptr_bytes h p ++ t) e, (w, u), omega arith, omega arith)
  collect-Cuts p bs l end_of_buffer w x = x
  collect-Cuts p bs l asserts w x = x
  collect-Cuts p bs l undefined w x = x

  pub substr_loop-Cuts :
      (ps : List Ptr) (o l : ℕ)
      → AllWithin h ps
      → Inside o ps
      → o + l ≤ total ps
      → o + l < 4294967296
      → Cuts (take l (drop o (list_bytes h ps))) l (substr_loop ps o l)
  unfolding substr_loop
  substr_loop-Cuts ps o zero w i e b = (refl, tt, refl, refl)
  substr_loop-Cuts [] o (suc l) w i e b = absurd (omega arith)
  substr_loop-Cuts (p ∷ ps) o (suc l) w i e b =
      let pb : List ℕ = ptr_bytes h p in
      let n = p.len - o in
      let size : length pb ≡ p.len = length-ptr_bytes h p w.0 in
      by_if (Cuts (take (suc l) (drop o (pb ++ list_bytes h ps))) (suc l))
        (ltb (wrap32 (o + suc l)) p.len)
        (λ t.
          let fits : o + suc l ≤ p.len = ground (arith, wrap32_lem (o + suc l) b) in
          (
            append-nil (ptr_bytes h (part p o (suc l)))
                ∙ ptr_bytes-part p o (suc l) fits
                ∙ sym (slice-append_left o (suc l) pb (list_bytes h ps) (omega arith)),
            (part-IsWithin p o (suc l) w.0 fits (omega arith), tt),
            refl,
            omega arith,
          ))
        λ t.
          let le : n ≤ suc l = ground (arith, wrap32_lem (o + suc l) b) in
          recut (collect (part p o n) (substr_loop ps 0 (suc l - n)))
            (ap (λ t. t ++ take (suc l - n) (list_bytes h ps))
                (ptr_bytes-rest p o w.0 (omega arith))
              ∙ sym (slice-append_through o (suc l) n pb (list_bytes h ps) (omega arith) le))
            (omega arith)
            (collect-Cuts (part p o n) (take (suc l - n) (list_bytes h ps)) (suc l - n)
              (substr_loop ps 0 (suc l - n)) (part-IsWithin p o n w.0 (omega arith) (omega arith))
              (substr_loop-Cuts ps 0 (suc l - n) w.1 (zero-Inside ps w.1) (omega arith)
                (omega arith)))
    where
      recut :
          {bs bs' : List ℕ} {m m' : ℕ} (r : Returned (List Ptr × ℕ))
          → bs ≡ bs'
          → m ≡ m'
          → Cuts bs m r
          → Cuts bs' m' r
      recut {bs} {bs'} {m} {m'} r e e' c =
          subst (λ k. Cuts bs' k r) e' (subst (λ t. Cuts t m r) e c)

-- The outcome of substr_of as the code's contract has it: the bytes of the slice in a sound list, or
-- end_of_buffer when the slice is out of range.
abbrev pub Slice : Heap → List ℕ → ℕ → ℕ → Returned BufferList → Type 0
Slice h bs o l (returns r) =
    (o + l ≤ length bs) × (bytes h r ≡ take l (drop o bs)) × (r.len ≡ l) × IsSound h r
Slice h bs o l end_of_buffer = length bs < o + l
Slice h bs o l asserts = ⊥
Slice h bs o l undefined = ⊥

-- On a sound list, and while off + len fits in 32 bits, substr_of throws end_of_buffer exactly when
-- the range goes beyond the contents; else it returns a sound list of exactly those bytes, and its two
-- loops never read the std::list at its end.
pub substr_of-Slice :
    (h : Heap) (other bl : BufferList) (o l : ℕ)
    → IsSound h other
    → o + l < 4294967296
    → Slice h (bytes h other) o l (substr_of other o l bl)
unfolding substr_of clear
substr_of-Slice h other bl o l s b =
    by_if (Slice h (bytes h other) o l) (ltb other.len (wrap32 (o + l)))
      (λ t. ground (arith, wrap32_lem (o + l) b, size, s.1))
      λ t.
        let fits : o + l ≤ total other.buffers = ground (arith, wrap32_lem (o + l) b, s.1) in
        skipped fits (skip_to other.buffers o) (skip_to-Skipped h other.buffers o s.0 (omega arith))
  where
    size : length (bytes h other) ≡ total other.buffers
    size = length-list_bytes h other.buffers s.0

    cut :
        (r : Returned (List Ptr × ℕ))
        → o + l ≤ total other.buffers
        → Cuts h (take l (drop o (bytes h other))) l r
        → Slice h
            (bytes h other)
            o
            l
            (r >>= λ q. returns (record (clear bl) { buffers = q.0; len = wrap32 q.1 }))
    cut (returns (qs, n)) f (e, w, a, t) =
        let same : wrap32 n ≡ l = ap wrap32 a ∙ wrap32_lem l (omega arith) in
        (omega (arith, size), e, same, (w, same ∙ sym t, omega (arith, same)))
    cut end_of_buffer f x = absurd x
    cut asserts f x = x
    cut undefined f x = x

    skipped :
        o + l ≤ total other.buffers
        → (r : Returned (List Ptr × ℕ)) → Skipped h other.buffers o r
        → Slice h (bytes h other) o l (
            r >>= λ s. substr_loop s.0 s.1 l >>= λ q.
            returns (record (clear bl) { buffers = q.0; len = wrap32 q.1 }))
    skipped f (returns (ps, o')) (e, t, z, w, i) = cut (substr_loop ps o' l) f (
        subst (λ u. Cuts h (take l u) l (substr_loop ps o' l)) (sym e)
          (substr_loop-Cuts h ps o' l w i (omega arith) (omega arith)))
    skipped f end_of_buffer x = absurd x
    skipped f asserts x = x
    skipped f undefined x = x
