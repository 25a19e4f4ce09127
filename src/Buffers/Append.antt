-- ===== src/Buffers/Append.antt =====
-- What push_back, append and share add to a list (src/buffer.cc, include/msgr/buffer.h).
use msg.Prelude.{
  ℕ, ◌+◌, ◌≤◌, ◌<◌, ◌≡◌, sym, ap, ◌∙◌, subst, arith, List, [], ◌∷◌, ◌++◌, length, take, drop, leb,
  ◌==◌, ◌&&◌, by_if, append-nil, append_assoc, drop-drop, take_add, Option, none, some,
}
use msg.Buffers.{
  Heap, Ptr, BufferList, Returned, returns, end_of_buffer, asserts, undefined, wrap32, part,
  push_back, grown, append_part, append_list,
}
use msg.Buffers.View.{
  content_of, ptr_bytes, list_bytes, bytes, total, IsWithin, AllWithin, IsSound, list_bytes-append,
  total-append, AllWithin-append,
}
use msg.Buffers.Substr.{wrap32_lem, ptr_bytes-part, part-IsWithin}

-- A sound list that holds the bytes `bs`.
abbrev pub Holds : Heap → List ℕ → Returned BufferList → Type 0
Holds h bs (returns bl) = (bytes h bl ≡ bs) × IsSound h bl
Holds h bs end_of_buffer = ⊥
Holds h bs asserts = ⊥
Holds h bs undefined = ⊥

module _ (h : Heap) where
  pub push_back-Holds :
      (p : Ptr) (bl : BufferList)
      → IsSound h bl
      → (0 < p.len → IsWithin h p)
      → bl.len + p.len < 4294967296
      → Holds h (bytes h bl ++ ptr_bytes h p) (returns (push_back p bl))
  unfolding push_back
  push_back-Holds p bl s w b =
      by_if (λ r. Holds h (bytes h bl ++ ptr_bytes h p) (returns r)) (p.len == 0)
        (λ t.
          let z : p.len ≡ 0 = ground arith in
          (
            sym (append-nil (bytes h bl))
                ∙ ap (λ k. bytes h bl ++ take k (drop p.off (content_of h p.raw))) (sym z),
            s,
          ))
        λ t.
          let v : IsWithin h p = w (ground arith) in
          let sum : wrap32 (bl.len + p.len) ≡ bl.len + p.len = wrap32_lem (bl.len + p.len) b in
          (
            list_bytes-append h bl.buffers (p ∷ [])
                ∙ ap (λ t. bytes h bl ++ t) (append-nil (ptr_bytes h p)),
            (
              AllWithin-append h bl.buffers (p ∷ []) s.0 (v, tt),
              omega (arith, sum, total-append bl.buffers (p ∷ []), s.1),
              omega (arith, sum),
            ),
          )

  -- Two ptrs that meet in one raw are one ptr.
  joined :
      (p q : Ptr) (o l : ℕ)
      → q.raw ≡ p.raw
      → q.off + q.len ≡ p.off + o
      → ptr_bytes h (record q { len = q.len + l }) ≡ ptr_bytes h q ++ ptr_bytes h (part p o l)
  joined p q o l r e =
      take_add q.len l (drop q.off (content_of h q.raw))
      ∙ ap (λ t. ptr_bytes h q ++ take l t)
          (drop-drop q.len q.off (content_of h q.raw)
            ∙ ap (λ k. drop k (content_of h q.raw)) e
            ∙ ap (λ k. drop (p.off + o) (content_of h k)) r)

  abbrev Grown : Ptr → ℕ → ℕ → List Ptr → Option (List Ptr) → Type 0
  Grown p o l qs none = Unit
  Grown p o l qs (some rs) =
      (list_bytes h rs ≡ list_bytes h qs ++ ptr_bytes h (part p o l))
      × AllWithin h rs
      × (total rs ≡ total qs + l)

  grown-Grown :
      (p : Ptr) (o l : ℕ) (qs : List Ptr)
      → IsWithin h p
      → o + l ≤ p.len
      → AllWithin h qs
      → Grown p o l qs (grown p o l qs)
  unfolding grown
  grown-Grown p o l [] v e w = tt
  grown-Grown p o l (q ∷ []) v e w =
      by_if (Grown p o l (q ∷ [])) ((q.raw == p.raw) && (q.off + q.len == p.off + o))
        (λ t.
          let r : q.raw ≡ p.raw = ground arith in
          let m : q.off + q.len ≡ p.off + o = ground arith in
          (
            append-nil (ptr_bytes h (record q { len = q.len + l }))
                ∙ joined p q o l r m
                ∙ ap (λ t. t ++ ptr_bytes h (part p o l)) (sym (append-nil (ptr_bytes h q))),
            (
              (
                w.0.0,
                omega (arith, v.1, ap (λ k. length (content_of h k)) r),
                omega (arith, w.0.2),
                w.0.3,
              ),
              tt,
            ),
            omega arith,
          ))
        λ t. tt
  grown-Grown p o l (q ∷ r ∷ qs) v e w =
      longer (grown p o l (r ∷ qs)) (grown-Grown p o l (r ∷ qs) v e w.1)
    where
      longer :
          (g : Option (List Ptr))
          → Grown p o l (r ∷ qs) g
          → Grown p o l (q ∷ r ∷ qs) (elim g [ none ↦ none | some rs ↦ some (q ∷ rs) ])
      longer none x = tt
      longer (some rs) (e, a, t) = (
        ap (λ t. ptr_bytes h q ++ t) e
            ∙ sym (append_assoc (ptr_bytes h q) (list_bytes h (r ∷ qs)) (ptr_bytes h (part p o l))),
        (w.0, a),
        omega arith,
      )

  -- A part of a ptr within its raw goes to the end of a sound list, which stays sound, also where
  -- the last ptr of the list grows in its place.
  pub append_part-Holds :
      (p : Ptr) (o l : ℕ) (bl : BufferList)
      → IsSound h bl
      → IsWithin h p
      → o + l ≤ p.len
      → l + o < 4294967296
      → bl.len + l < 4294967296
      → Holds h (bytes h bl ++ take l (drop o (ptr_bytes h p))) (append_part p o l bl)
  unfolding append_part
  append_part-Holds p o l bl s v e f b =
      by_if (Holds h (bytes h bl ++ take l (drop o (ptr_bytes h p)))) (leb (wrap32 (l + o)) p.len)
        (λ t. by_grown (grown p o l bl.buffers) (grown-Grown p o l bl.buffers v e s.0))
        λ t. absurd (ground (arith, wrap32_lem (l + o) f))
    where
      same : ptr_bytes h (part p o l) ≡ take l (drop o (ptr_bytes h p))
      same = ptr_bytes-part h p o l e

      by_grown :
          (g : Option (List Ptr))
          → Grown p o l bl.buffers g
          → Holds h (bytes h bl ++ take l (drop o (ptr_bytes h p))) (
              returns (elim g as (λ g. BufferList) [
                | some ps ↦ record bl { buffers = ps; len = wrap32 (bl.len + l) }
                | none ↦ push_back (part p o l) bl
              ]))
      by_grown none x =
          subst (λ u. Holds h (bytes h bl ++ u) (returns (push_back (part p o l) bl))) same
            (push_back-Holds (part p o l) bl s (λ n. part-IsWithin h p o l v e n) b)
      by_grown (some rs) (d, a, t) =
          let sum : wrap32 (bl.len + l) ≡ bl.len + l = wrap32_lem (bl.len + l) b in
          (d ∙ ap (λ u. bytes h bl ++ u) same, (a, omega (arith, sum, s.1), omega (arith, sum)))

  pub append_list-Holds :
      (other bl : BufferList)
      → IsSound h other
      → IsSound h bl
      → bl.len + other.len < 4294967296
      → Holds h (bytes h bl ++ bytes h other) (returns (append_list other bl))
  unfolding append_list
  append_list-Holds other bl so s b =
      let sum : wrap32 (bl.len + other.len) ≡ bl.len + other.len = wrap32_lem _ b in
      (
        list_bytes-append h bl.buffers other.buffers,
        (
          AllWithin-append h bl.buffers other.buffers s.0 so.0,
          omega (arith, sum, total-append bl.buffers other.buffers, s.1, so.1),
          omega (arith, sum),
        ),
      )
