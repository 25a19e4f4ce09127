-- ===== src/Buffers/Reading/Slices.antt =====
-- Reading through an iterator that stands where its offset says (src/buffer.cc).
use msg.Prelude.{
  ℕ, zero, suc, ◌+◌, ◌-◌, ◌≤◌, ◌<◌, ◌≡◌, ◌≢◌, refl, sym, ap, ◌∙◌, subst, arith, List, [], ◌∷◌,
  length, drop, ltb, leb, ◌==◌, by_if, drop-drop, drop-append_right,
}
use msg.Buffers.{Heap, Ptr, Returned, returns, end_of_buffer, asserts, undefined, ◌>>=◌, wrap32}
use msg.Buffers.View.{ptr_bytes, list_bytes, total, AllWithin, length-ptr_bytes}
use msg.Buffers.Substr.{wrap32_lem, Inside, zero-Inside}
use msg.Buffers.Reading.{Iterator, advance_loop, iterator_advance, seek, reseek}

module _ (h : Heap) (whole : List Ptr) where
  -- The iterator stands `o` bytes into the list.
  abbrev pub At : ℕ → Iterator → Type 0
  At o it =
      (it.off ≡ o)
      × (drop o (list_bytes h whole) ≡ drop it.p_off (list_bytes h it.p))
      × (total it.p + o ≡ total whole + it.p_off)
      × (it.p_off ≤ o)
      × AllWithin h it.p
      × Inside it.p_off it.p
      × (it.p ≡ drop it.index whole)

  abbrev pub AtBy : ℕ → Returned Iterator → Type 0
  AtBy o (returns it) = At o it
  AtBy o end_of_buffer = ⊥
  AtBy o asserts = ⊥
  AtBy o undefined = ⊥

module _ (h : Heap) (whole : List Ptr) (small : total whole < 2147483648)
    (within : AllWithin h whole) where
  -- What the loop of advance leaves of `n` bytes from `ps` on.
  abbrev Advanced : List Ptr → ℕ → Returned (ℕ × List Ptr × ℕ) → Type 0
  Advanced ps n (returns (i, qs, k)) =
      (drop n (list_bytes h ps) ≡ drop k (list_bytes h qs))
      × (total qs + n ≡ total ps + k)
      × (k ≤ n)
      × AllWithin h qs
      × Inside k qs
      × (qs ≡ drop i whole)
  Advanced ps n end_of_buffer = ⊥
  Advanced ps n asserts = ⊥
  Advanced ps n undefined = ⊥

  advance_loop-Advanced :
      (i : ℕ) (ps : List Ptr) (n : ℕ)
      → AllWithin h ps
      → n ≤ total ps
      → ps ≡ drop i whole
      → Advanced ps n (advance_loop i ps n)
  unfolding advance_loop
  advance_loop-Advanced i ps zero w e d = (refl, omega arith, omega arith, w, zero-Inside h ps w, d)
  advance_loop-Advanced i [] (suc n) w e d = elim e [ ]
  advance_loop-Advanced i (p ∷ ps) (suc n) w e d =
      by_if (Advanced (p ∷ ps) (suc n)) (leb p.len (suc n))
        (λ t. later (advance_loop (i + 1) ps (suc n - p.len)) (ground arith) (
          advance_loop-Advanced (i + 1) ps (suc n - p.len) w.1 (ground arith)
            (ap (λ z. drop 1 z) d ∙ drop-drop 1 i whole)))
        λ t. (refl, omega arith, omega arith, w, ground arith, d)
    where
      later :
          (r : Returned (ℕ × List Ptr × ℕ))
          → p.len ≤ suc n
          → Advanced ps (suc n - p.len) r
          → Advanced (p ∷ ps) (suc n) r
      later (returns (j, qs, k)) le (a, b, c, u, v, z) =
          let size = length-ptr_bytes h p w.0 in
          let left : suc n - length (ptr_bytes h p) ≡ suc n - p.len = ap (λ m. suc n - m) size in
          (
            drop-append_right (suc n) (ptr_bytes h p) (list_bytes h ps) (omega (arith, size))
                ∙ ap (λ m. drop m (list_bytes h ps)) left
                ∙ a,
            omega arith,
            omega arith,
            u,
            v,
            z,
          )
      later end_of_buffer le x = x
      later asserts le x = x
      later undefined le x = x

  pub iterator_advance-At :
      (o d : ℕ) (it : Iterator)
      → At h whole o it
      → o + d ≤ total whole
      → AtBy h whole (o + d) (iterator_advance d it)
  unfolding iterator_advance
  iterator_advance-At o d it a e =
      by_if (AtBy h whole (o + d)) (d == 0)
        (λ t. let z : o ≡ o + d = ground arith in subst (λ k. At h whole k it) z a)
        λ t.
          subst (λ n. AtBy h whole (o + d) (advance_loop it.index it.p n >>= λ s. moved s))
            (sym sum)
            (after (advance_loop it.index it.p (it.p_off + d))
              (advance_loop-Advanced it.index it.p (it.p_off + d) a.4 (omega (arith, a)) a.6))
    where
      sum : wrap32 (it.p_off + d) ≡ it.p_off + d
      sum = wrap32_lem (it.p_off + d) (omega (arith, a))

      moved : ℕ × List Ptr × ℕ → Returned Iterator
      moved s = returns (record { off = wrap32 (it.off + d); index = s.0; p = s.1; p_off = s.2 })

      after :
          (r : Returned (ℕ × List Ptr × ℕ))
          → Advanced it.p (it.p_off + d) r
          → AtBy h whole (o + d) (r >>= λ s. moved s)
      after (returns (i, qs, k)) (x, y, z, u, v, w) = (
        wrap32_lem (it.off + d) (omega (arith, a)) ∙ omega (arith, a),
        sym (drop-drop d o (list_bytes h whole))
            ∙ ap (λ t. drop d t) a.1
            ∙ drop-drop d it.p_off (list_bytes h it.p)
            ∙ x,
        omega (arith, a),
        omega (arith, a),
        u,
        v,
        w,
      )
      after end_of_buffer x = x
      after asserts x = x
      after undefined x = x

  pub seek-At : (o : ℕ) → o ≤ total whole → AtBy h whole o (seek o whole)
  unfolding seek
  seek-At o e =
      by_if (AtBy h whole o) (ltb o 2147483648)
        (λ t.
          let z : 0 + o ≡ o = omega arith in
          let start : Iterator = record { off = 0; index = 0; p = whole; p_off = 0 } in
          subst (λ k. AtBy h whole k (iterator_advance o start)) z
            (iterator_advance-At 0 o start
              (refl, refl, omega arith, omega arith, within, zero-Inside h whole within, refl)
              (omega arith)))
        λ t. absurd (ground arith)

  pub reseek-At :
      (o : ℕ) (it : Iterator)
      → o ≤ total whole
      → it.off ≡ o
      → (it.p ≢ [] → At h whole o it)
      → AtBy h whole o (reseek whole it)
  unfolding reseek
  reseek-At o it e f a =
      (elim it.p
          as (λ p.
            ((p ≢ []) → At h whole o (record it { p = p }))
            → AtBy h whole o (elim p as (λ p. Returned Iterator) [
              | [] ↦ seek it.off whole
              | q ∷ qs ↦ returns (record it { p = p })
            ])) [
              | [] ↦ λ _. subst (λ k. AtBy h whole o (seek k whole)) (sym f) (seek-At o e)
              | q ∷ qs ↦ λ b. b (λ u. absurd (cc))
            ])
        a
