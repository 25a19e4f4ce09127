-- ===== src/Buffers/Memory/Appending.antt =====
-- append of characters puts them at the end of its list and changes no other list (src/buffer.cc).
use msg.Prelude.{
  ℕ, zero, suc, ◌+◌, ◌-◌, ◌≤◌, ◌<◌, ◌≡◌, ◌⊎◌, inl, inr, ap, ◌∙◌, subst, min, arith, List, [], ◌∷◌,
  ◌++◌, length, take, drop, ◌==◌, if◌then◌else◌, by_if, length-append, length-take, length-drop,
  take-append-drop, take_all,
}
use msg.Buffers.{Heap, BufferList, Returned, returns, end_of_buffer, asserts, undefined, ◌>>=◌}
use msg.Buffers.View.{bytes, length-list_bytes}
use msg.Buffers.Memory.{unused_tail_length, fill, new_append_buffer, append_loop, append_chars}
use msg.Buffers.Memory.Together.{Together, Appends}
use msg.Buffers.Memory.Fresh.{Appends-nil, Appends-trans, fill_lem, new_append_buffer-Fresh}

module _ (other : BufferList) where
  module _ (uninit : ℕ → List ℕ) (sized : (n : ℕ) → length (uninit n) ≡ n) where
    -- The rounds are enough: one, when the bytes fit in what there is, or else two.
    abbrev Enough : ℕ → List ℕ → Heap → BufferList → Type 0
    Enough rounds src h bl =
        (length src ≤ unused_tail_length h bl.append_buffer) × (1 ≤ rounds) ⊎ (2 ≤ rounds)

    -- What a round does before it looks whether it is done.
    filled-Appends :
        (h : Heap) (bl : BufferList) (src : List ℕ)
        → Together h bl other
        → bl.len + length src < 4294967296
        → let gap = min (unused_tail_length h bl.append_buffer) (length src) in
          Appends h bl other
            (take gap src)
            (if gap == 0 then returns (h, bl) else fill (take gap src) h bl)
    filled-Appends h bl src t f =
        by_if (Appends h bl other (take gap src)) (gap == 0)
          (λ z.
            let none : 0 ≡ gap = ground arith in
            subst (λ k. Appends h bl other (take k src) (returns (h, bl))) none
              (Appends-nil other h bl t))
          λ z.
            fill_lem other h bl (take gap src) t (ground (arith, length-take gap src))
              (omega (arith, length-take gap src)) (omega (arith, length-take gap src))
      where
        gap : ℕ
        gap = min (unused_tail_length h bl.append_buffer) (length src)

    append_loop-Appends :
        (rounds : ℕ) (src : List ℕ) (h : Heap) (bl : BufferList)
        → Together h bl other
        → Enough rounds src h bl
        → bl.len + length src < 4294963200
        → Appends h bl other src (append_loop uninit rounds src h bl)
    unfolding append_loop
    append_loop-Appends rounds [] h bl t e f = Appends-nil other h bl t
    append_loop-Appends zero (c ∷ cs) h bl t e f = absurd (omega arith)
    append_loop-Appends (suc rounds) (c ∷ cs) h bl t e f =
        finish (if gap == 0 then returns (h, bl) else fill (take gap (c ∷ cs)) h bl)
          (filled-Appends h bl (c ∷ cs) t (omega arith))
          λ h' bl' t' e' f'. append_loop-Appends rounds (drop gap (c ∷ cs)) h' bl' t' e' f'
      where
        gap : ℕ
        gap = min (unused_tail_length h bl.append_buffer) (length (c ∷ cs))

        rest : Heap × BufferList → Returned (Heap × BufferList)
        rest s =
            let n = new_append_buffer uninit (length (c ∷ cs) - gap) s.0 s.1 in
            append_loop uninit rounds (drop gap (c ∷ cs)) n.0 n.1

        finish :
            (r : Returned (Heap × BufferList))
            → Appends h bl other (take gap (c ∷ cs)) r
            → ((h' : Heap) (bl' : BufferList)
                → Together h' bl' other
                → Enough rounds (drop gap (c ∷ cs)) h' bl'
                → bl'.len + length (drop gap (c ∷ cs)) < 4294963200
                → Appends h' bl' other
                    (drop gap (c ∷ cs))
                    (append_loop uninit rounds (drop gap (c ∷ cs)) h' bl'))
            → Appends h bl other
                (c ∷ cs)
                (r >>= λ s. if length (c ∷ cs) - gap == 0 then returns s else rest s)
        finish (returns (h', bl')) x ih =
            by_if (Appends h bl other (c ∷ cs)) (length (c ∷ cs) - gap == 0)
              (λ z.
                (x.0 ∙ ap (λ u. bytes h bl ++ u) (take_all gap (c ∷ cs) (ground arith)), x.1, x.2))
              λ z.
                let len = length (c ∷ cs) - gap in
                let n = new_append_buffer uninit len h' bl' in
                let count : length (drop gap (c ∷ cs)) ≡ len = length-drop gap (c ∷ cs) in
                let size : bl'.len ≡ bl.len + gap = omega (
                  arith,
                  ap (λ u. length u) x.0,
                  length-append (bytes h bl) (take gap (c ∷ cs)),
                  length-list_bytes h bl.buffers t.sound.0,
                  length-list_bytes h' bl'.buffers x.2.sound.0,
                  length-take gap (c ∷ cs),
                  t.sound.1,
                  x.2.sound.1,
                ) in
                let y =
                  new_append_buffer-Fresh other uninit sized len h' bl' x.2 (ground arith)
                    (omega arith) in
                subst (λ u. Appends h bl other u (rest (h', bl'))) (take-append-drop gap (c ∷ cs))
                  (Appends-trans other h n.0 bl n.1 (take gap (c ∷ cs)) (drop gap (c ∷ cs))
                    (rest (h', bl')) (y.1 ∙ x.0) (y.2 ∙ x.1)
                    (ih n.0 n.1 y.0 (inl (omega (arith, count, y.4), grind arith))
                      (omega (arith, count, size, y.3))))
        finish end_of_buffer x ih = x
        finish asserts x ih = x
        finish undefined x ih = x

-- Two sound lists may share raws, as long as no ptr shows the unused tail of an append_buffer and
-- their append_buffers are in different raws. Then append of characters to one of them succeeds, at
-- any length that leaves a page below 2 ^ 32: the list has the characters at its end, the other list
-- keeps its bytes, though both may read the raw that is written, and all of this holds again. A new
-- raw has the size that was asked for.
pub append_chars-Appends :
    (uninit : ℕ → List ℕ) (src : List ℕ) (h : Heap) (bl other : BufferList)
    → ((n : ℕ) → length (uninit n) ≡ n)
    → Together h bl other
    → bl.len + length src < 4294963200
    → Appends h bl other src (append_chars uninit src h bl)
unfolding append_chars
append_chars-Appends uninit src h bl other sized t f =
    append_loop-Appends other uninit sized 2 src h bl t (inr (omega arith)) f
