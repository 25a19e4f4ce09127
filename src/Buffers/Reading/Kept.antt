-- ===== src/Buffers/Reading/Kept.antt =====
-- Where the cached iterator of a list keeps fitting: at begin(), and when ptrs go to the end
-- (src/buffer.cc, include/msgr/buffer.h).
use msg.Prelude.{
  ℕ, zero, suc, ◌≤◌, ◌<◌, ◌≡◌, ◌≢◌, refl, sym, ap, ◌∙◌, subst, arith, List, [], ◌∷◌, ◌++◌, drop,
  ◌==◌, by_if, drop-append,
}
use msg.Buffers.{
  Heap, Ptr, Place, at_node, past, dangling, Cursor, BufferList, begin, push_back, append_list,
}
use msg.Buffers.View.{
  list_bytes, total, IsWithin, AllWithin, IsSound, list_bytes-append, length-list_bytes,
  total-append, AllWithin-append,
}
use msg.Buffers.Substr.{Inside}
use msg.Buffers.Reading.Slices.{At}
use msg.Buffers.Reading.Copy.{Fits}

drop-append_nonempty :
    (i : ℕ) (ps qs : List Ptr) → drop i ps ≢ [] → drop i (ps ++ qs) ≡ drop i ps ++ qs
drop-append_nonempty zero ps qs n = refl
drop-append_nonempty (suc i) [] qs n = absurd (n refl)
drop-append_nonempty (suc i) (p ∷ ps) qs n = drop-append_nonempty i ps qs n

module _ (h : Heap) where
  pub begin-Fits : (ps : List Ptr) → AllWithin h ps → Fits h ps (begin ps)
  unfolding begin
  begin-Fits [] w = tt
  begin-Fits (p ∷ ps) w = ((refl, refl, omega arith, omega arith, w, w.0.2, refl), λ e. absurd (cc))

  Inside-more :
      (o : ℕ) (rs qs : List Ptr) → rs ≢ [] → Inside o rs → Inside o (rs ++ qs) × (o ≤ total rs)
  Inside-more o [] qs n i = absurd (n refl)
  Inside-more o (r ∷ rs) qs n i = (i, omega arith)

  -- An iterator at a node stands at the same bytes when ptrs go to the end of its list.
  pub append-Fits :
      (ps qs : List Ptr) (c : Cursor)
      → AllWithin h ps
      → AllWithin h qs
      → Fits h ps c
      → Fits h (ps ++ qs) c
  append-Fits ps qs c w v f = by_place c.place f
    where
      by_place :
          (x : Place)
          → Fits h ps (record c { place = x })
          → Fits h (ps ++ qs) (record c { place = x })
      by_place past f = tt
      by_place dangling f = f
      by_place (at_node i) (a, n) =
          let rs : List Ptr = drop i ps in
          let more : drop i (ps ++ qs) ≡ rs ++ qs = drop-append_nonempty i ps qs n in
          let inside = Inside-more c.p_off rs qs n a.5 in
          (
            subst
                (λ z.
                  At h (ps ++ qs) c.off (record { off = c.off; index = i; p = z; p_off = c.p_off }))
                (sym more)
                (
                  refl,
                  ap (λ t. drop c.off t) (list_bytes-append h ps qs)
                      ∙ drop-append c.off (list_bytes h ps) (list_bytes h qs)
                          (omega (arith, a.2, inside.1, length-list_bytes h ps w))
                      ∙ ap (λ t. t ++ list_bytes h qs) a.1
                      ∙ sym (
                          drop-append c.p_off (list_bytes h rs) (list_bytes h qs)
                            (omega (arith, inside.1, length-list_bytes h rs a.4)))
                      ∙ ap (λ t. drop c.p_off t) (sym (list_bytes-append h rs qs)),
                  omega (arith, a.2, total-append rs qs, total-append ps qs),
                  a.3,
                  AllWithin-append h rs qs a.4 v,
                  inside.0,
                  sym more,
                ),
            λ e. n (nil_front rs qs (sym more ∙ e)),
          )
        where
          nil_front : (xs ys : List Ptr) → xs ++ ys ≡ [] → xs ≡ []
          nil_front [] ys e = refl
          nil_front (x ∷ xs) ys e = absurd (cc)

  pub push_back-Fits :
      (p : Ptr) (bl : BufferList)
      → IsSound h bl
      → (0 < p.len → IsWithin h p)
      → Fits h bl.buffers bl.last_p
      → Fits h (push_back p bl).buffers (push_back p bl).last_p
  unfolding push_back
  push_back-Fits p bl s w f =
      by_if (λ (b : BufferList). Fits h b.buffers b.last_p) (p.len == 0) (λ t. f)
        λ t. append-Fits bl.buffers (p ∷ []) bl.last_p s.0 (w (ground arith), tt) f

  pub append_list-Fits :
      (other bl : BufferList)
      → IsSound h other
      → IsSound h bl
      → Fits h bl.buffers bl.last_p
      → Fits h (append_list other bl).buffers (append_list other bl).last_p
  unfolding append_list
  append_list-Fits other bl so s f = append-Fits bl.buffers other.buffers bl.last_p s.0 so.0 f
