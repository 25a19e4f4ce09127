-- ===== src/Buffers/Reading/Copy.antt =====
-- copy through the cached iterator returns a slice of the flat contents (src/buffer.cc).
use msg.Prelude.{
  ℕ, ◌+◌, ◌≤◌, ◌<◌, ◌≡◌, ◌≢◌, refl, sym, subst, arith, List, [], ◌∷◌, length, take, drop, ltb, ◌==◌,
  by_if,
}
use msg.Buffers.{
  Heap, Ptr, Place, at_node, past, dangling, Cursor, BufferList, Returned, returns, end_of_buffer,
  asserts, undefined, ◌>>=◌, wrap32,
}
use msg.Buffers.View.{bytes, total, IsSound, length-list_bytes}
use msg.Buffers.Substr.{wrap32_lem}
use msg.Buffers.Reading.{Iterator, seek, iterator_copy, from_cursor, to_cursor, copy}
use msg.Buffers.Reading.Rounds.{Copied, iterator_copy-Copied}
use msg.Buffers.Reading.Slices.{At, AtBy, seek-At}

-- The cached iterator stands where its offset says, or at the end, where copy does not trust it.
abbrev pub Fits : Heap → List Ptr → Cursor → Type 0
Fits h ps c = elim c.place as (λ p. Type 0) [
  | at_node i ↦
      At h ps c.off (record { off = c.off; index = i; p = drop i ps; p_off = c.p_off })
      × (drop i ps ≢ [])
  | past ↦ Unit
  | dangling ↦ ⊥
]

Fits-to_cursor :
    (h : Heap) (ps : List Ptr) (o : ℕ) (it : Iterator) → At h ps o it → Fits h ps (to_cursor it)
unfolding to_cursor
Fits-to_cursor h ps o it a = by_p it.p a.6 (subst (λ k. At h ps k it) (sym a.0) a)
  where
    by_p :
        (p : List Ptr)
        → p ≡ drop it.index ps
        → At h ps it.off (record it { p = p })
        → Fits h ps (
            let place = elim p as (λ p. Place) [ [] ↦ past | p ∷ ps ↦ at_node it.index ] in
            record { off = it.off; place = place; p_off = it.p_off })
    by_p [] e b = tt
    by_p (q ∷ qs) e b = (subst (λ z. At h ps it.off (record it { p = z })) e b, λ n. absurd (cc))

-- The outcome of copy on a list whose bytes are `bs`.
abbrev pub Reads : Heap → List ℕ → ℕ → ℕ → Returned (List ℕ × BufferList) → Type 0
Reads h bs o l (returns (out, bl)) =
    (o + l ≤ length bs)
    × (out ≡ take l (drop o bs))
    × (bytes h bl ≡ bs)
    × IsSound h bl
    × Fits h bl.buffers bl.last_p
Reads h bs o l end_of_buffer = length bs < o + l
Reads h bs o l asserts = ⊥
Reads h bs o l undefined = ⊥

-- On a sound list below 2 GiB whose cached iterator fits, and while off + len fits in 32 bits, copy
-- throws end_of_buffer exactly when the range goes beyond the contents. Else it returns the bytes of
-- the range, and leaves the cached iterator fitting. It goes on from the cached place when that has
-- the offset, and its loops end within their rounds.
pub copy-Reads :
    (h : Heap) (o l : ℕ) (bl : BufferList)
    → IsSound h bl
    → bl.len < 2147483648
    → Fits h bl.buffers bl.last_p
    → o + l < 4294967296
    → Reads h (bytes h bl) o l (copy h o l bl)
unfolding copy from_cursor
copy-Reads h o l bl s m c b =
    by_if (Reads h (bytes h bl) o l) (ltb bl.len (wrap32 (o + l)))
      (λ t. ground (arith, wrap32_lem (o + l) b, size, s.1))
      λ t.
        let fits : o + l ≤ total bl.buffers = ground (arith, wrap32_lem (o + l) b, s.1) in
        by_if (λ r. Reads h (bytes h bl) o l (finish r)) (bl.last_p.off == o)
          (λ u. cached fits (ground arith) bl.last_p.place c)
          λ u. sought fits (seek o bl.buffers) (seek-At h bl.buffers small s.0 o (omega arith))
  where
    small : total bl.buffers < 2147483648
    small = omega (arith, s.1)

    size : length (bytes h bl) ≡ total bl.buffers
    size = length-list_bytes h bl.buffers s.0

    finish : Returned Iterator → Returned (List ℕ × BufferList)
    finish r = r >>= λ it.
        iterator_copy h bl.buffers l it >>= λ r. returns (r.0, record bl { last_p = to_cursor r.1 })

    done :
        (r : Returned (List ℕ × Iterator))
        → o + l ≤ total bl.buffers
        → Copied h bl.buffers small s.0 o l r
        → Reads h (bytes h bl) o l (r >>= λ r. returns (r.0, record bl { last_p = to_cursor r.1 }))
    done (returns (out, it)) e (x, a) =
        (omega (arith, size), x, refl, s, Fits-to_cursor h bl.buffers (o + l) it a)
    done end_of_buffer e x = absurd x
    done asserts e x = x
    done undefined e x = x

    from :
        (it : Iterator)
        → o + l ≤ total bl.buffers
        → it.off ≡ o
        → (it.p ≢ [] → At h bl.buffers o it)
        → Reads h (bytes h bl) o l (finish (returns it))
    from it e f a =
        done (iterator_copy h bl.buffers l it) e
          (iterator_copy-Copied h bl.buffers small s.0 o l it e f a)

    sought :
        o + l ≤ total bl.buffers
        → (r : Returned Iterator) → AtBy h bl.buffers o r
        → Reads h (bytes h bl) o l (finish r)
    sought e (returns it) a = from it e a.0 (λ _. a)
    sought e end_of_buffer x = absurd x
    sought e asserts x = absurd x
    sought e undefined x = absurd x

    cached :
        o + l ≤ total bl.buffers
        → bl.last_p.off ≡ o
        → (p : Place) → Fits h bl.buffers (record bl.last_p { place = p })
        → Reads h
            (bytes h bl)
            o
            l
            (finish (from_cursor bl.buffers (record bl.last_p { place = p })))
    cached e f (at_node i) x =
        let it : Iterator = record {
          off = bl.last_p.off;
          index = i;
          p = drop i bl.buffers;
          p_off = bl.last_p.p_off;
        } in
        from it e f (λ _. subst (λ k. At h bl.buffers k it) f x.0)
    cached e f past x =
        from
          (record {
            off = bl.last_p.off;
            index = length bl.buffers;
            p = [];
            p_off = bl.last_p.p_off;
          })
          e f (λ n. absurd (n refl))
    cached e f dangling x = absurd x
