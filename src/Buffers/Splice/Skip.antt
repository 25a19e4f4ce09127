-- ===== src/Buffers/Splice/Skip.antt =====
-- The first loop of splice, and what is kept in front of the range (src/buffer.cc).
use msg.Prelude.{
  ℕ, zero, suc, ◌+◌, ◌-◌, ◌≤◌, ◌<◌, ◌≡◌, refl, sym, ap, ◌∙◌, arith, List, [], ◌∷◌, ◌++◌, take, leb,
  by_if, append-nil, take-append_left,
}
use msg.Buffers.{Heap, Ptr, Returned, returns, end_of_buffer, asserts, undefined, ◌>>=◌, part}
use msg.Buffers.View.{ptr_bytes, list_bytes, total, AllWithin, length-ptr_bytes}
use msg.Buffers.Substr.{Inside, zero-Inside, ptr_bytes-part, part-IsWithin}
use msg.Buffers.Splice.{splice_skip, kept_front}

module _ (h : Heap) where
  -- The first loop parts the list at the offset.
  abbrev pub Parted : List Ptr → ℕ → Returned (List Ptr × List Ptr × ℕ) → Type 0
  Parted ps o (returns (fs, qs, o')) =
      (ps ≡ fs ++ qs) × (total fs + o' ≡ o) × AllWithin h fs × AllWithin h qs × Inside o' qs
  Parted ps o end_of_buffer = ⊥
  Parted ps o asserts = ⊥
  Parted ps o undefined = ⊥

  pub splice_skip-Parted :
      (ps : List Ptr) (o : ℕ) → AllWithin h ps → o ≤ total ps → Parted ps o (splice_skip ps o)
  unfolding splice_skip
  splice_skip-Parted ps zero w e = (refl, omega arith, tt, w, zero-Inside h ps w)
  splice_skip-Parted [] (suc n) w e = elim e [ ]
  splice_skip-Parted (p ∷ ps) (suc n) w e =
      by_if (Parted (p ∷ ps) (suc n)) (leb p.len (suc n))
        (λ t.
          later (splice_skip ps (suc n - p.len)) (ground arith)
            (splice_skip-Parted ps (suc n - p.len) w.1 (ground arith)))
        λ t. (refl, omega arith, tt, w, ground arith)
    where
      later :
          (r : Returned (List Ptr × List Ptr × ℕ))
          → p.len ≤ suc n
          → Parted ps (suc n - p.len) r
          → Parted (p ∷ ps) (suc n) (r >>= λ s. returns (p ∷ s.0, s.1, s.2))
      later (returns (fs, qs, o')) le (a, b, c, d, i) =
          (ap (λ t. p ∷ t) a, omega arith, (w.0, c), d, i)
      later end_of_buffer le x = x
      later asserts le x = x
      later undefined le x = x

  -- The bit of `curbuf` that is kept in front of the range.
  pub kept_front_lem :
      (qs : List Ptr) (o : ℕ)
      → AllWithin h qs
      → Inside o qs
      → o < total qs
      → (list_bytes h (kept_front qs o) ≡ take o (list_bytes h qs))
        × AllWithin h (kept_front qs o)
        × (total (kept_front qs o) ≡ o)
  kept_front_lem qs zero w i e = (refl, tt, refl)
  kept_front_lem [] (suc o) w i e = elim e [ ]
  kept_front_lem (p ∷ ps) (suc o) w i e = (
    append-nil (ptr_bytes h (part p 0 (suc o)))
        ∙ ptr_bytes-part h p 0 (suc o) (omega arith)
        ∙ sym (
            take-append_left (suc o) (ptr_bytes h p) (list_bytes h ps)
              (omega (arith, length-ptr_bytes h p w.0))),
    (part-IsWithin h p 0 (suc o) w.0 (omega arith) (omega arith), tt),
    omega arith,
  )
