-- ===== src/Buffers/Splice/Cut.antt =====
-- splice takes a slice out of the flat contents, and claim_by receives it (src/buffer.cc).
use msg.Prelude.{
  ℕ, ◌+◌, ◌-◌, ◌≤◌, ◌<◌, ◌≡◌, ◌⊎◌, inl, inr, sym, ap, ◌∙◌, subst, arith, List, ◌++◌, length, take,
  drop, leb, ◌==◌, by_if, append_assoc, Option, drop-append_right, take-append_right,
  take-append-drop,
}
use msg.Buffers.{
  Heap, Ptr, BufferList, Returned, returns, end_of_buffer, asserts, undefined, ◌>>=◌, wrap32, begin,
}
use msg.Buffers.View.{
  list_bytes, bytes, total, IsSound, length-list_bytes, list_bytes-append, total-append,
  AllWithin-append,
}
use msg.Buffers.Substr.{wrap32_lem}
use msg.Buffers.Splice.Claim.{RoomFor, Claims, Claims-nil}
use msg.Buffers.Splice.Skip.{Parted, splice_skip-Parted, kept_front_lem}
use msg.Buffers.Splice.Loops.{Left, splice_loop-Left}
use msg.Buffers.Splice.{splice_skip, splice_loop, kept_front, splice}

cut_skip : (xs ys : List ℕ) (o o' : ℕ) → length xs + o' ≡ o → drop o' ys ≡ drop o (xs ++ ys)
cut_skip xs ys o o' e =
    let d : o' ≡ o - length xs = omega arith in
    ap (λ k. drop k ys) d ∙ sym (drop-append_right o xs ys (omega arith))

cut_out :
    (xs ys : List ℕ) (o o' l : ℕ)
    → length xs + o' ≡ o
    → xs ++ (take o' ys ++ drop (o' + l) ys) ≡ take o (xs ++ ys) ++ drop (o + l) (xs ++ ys)
cut_out xs ys o o' l e =
    let d : o' ≡ o - length xs = omega arith in
    sym (append_assoc xs (take o' ys) (drop (o' + l) ys))
    ∙ ap (λ t. t ++ drop (o' + l) ys)
        (ap (λ k. xs ++ take k ys) d ∙ sym (take-append_right o xs ys (omega arith)))
    ∙ ap (λ t. take o (xs ++ ys) ++ t) (cut_skip xs ys (o + l) (o' + l) (omega arith))

-- The outcome of splice on a list whose bytes are `bs`.
abbrev pub Removed :
    Heap → List ℕ → ℕ → ℕ → Option BufferList → Returned (BufferList × Option BufferList) → Type 0
Removed h bs o l c (returns (bl, c')) =
    ((o < length bs) ⊎ (l ≡ 0))
    × (bytes h bl ≡ take o bs ++ drop (o + l) bs)
    × IsSound h bl
    × Claims h (take l (drop o bs)) c c'
Removed h bs o l c end_of_buffer = (length bs ≤ o) × (0 < l)
Removed h bs o l c asserts = ⊥
Removed h bs o l c undefined = ⊥

-- On a sound list splice throws end_of_buffer exactly when the range is not empty and starts behind
-- the contents. Else it takes the range out, as far as there are bytes, leaves a sound list, and hands
-- the bytes taken to claim_by, when there is one that is sound and has room for them. Its assertion
-- never fails. The sums that the code forms fit in 32 bits.
pub splice-Removed :
    (h : Heap) (o l : ℕ) (c : Option BufferList) (bl : BufferList)
    → IsSound h bl
    → RoomFor h l c
    → o + l < 4294967296
    → bl.len + o < 4294967296
    → Removed h (bytes h bl) o l c (splice o l c bl)
unfolding splice
splice-Removed h o l c bl s r b b' =
    by_if P (l == 0)
      (λ t.
        let z : 0 ≡ l = ground arith in
        (
          inr (sym z),
          sym (take-append-drop o (bytes h bl))
              ∙ ap (λ k. take o (bytes h bl) ++ drop k (bytes h bl)) (omega arith),
          s,
          subst (λ k. Claims h (take k (drop o (bytes h bl))) c c) z (Claims-nil h c l r),
        ))
      λ t.
        by_if P (leb bl.len o) (λ u. (ground (arith, size, s.1), ground arith))
          λ u.
            by_skip (ground (arith, s.1)) (ground arith) (splice_skip bl.buffers o)
              (splice_skip-Parted h bl.buffers o s.0 (ground (arith, s.1)))
  where
    P : Returned (BufferList × Option BufferList) → Type 0
    P = Removed h (bytes h bl) o l c

    size : length (bytes h bl) ≡ total bl.buffers
    size = length-list_bytes h bl.buffers s.0

    by_skip :
        o < total bl.buffers
        → 0 < l
        → (r : Returned (List Ptr × List Ptr × ℕ)) → Parted h bl.buffers o r
        → P (
            r >>= λ s. splice_loop s.1 s.2 l (wrap32 (bl.len + s.2)) c >>= λ t.
            let ps = s.0 ++ (kept_front s.1 s.2 ++ t.0) in
            returns (record bl { buffers = ps; len = t.1; last_p = begin ps }, t.2))
    by_skip lt pos (returns (fs, qs, o')) (a, e, w, v, i) =
        by_loop (splice_loop qs o' l (wrap32 (bl.len + o')) c) (
          splice_loop-Left h qs o' l (wrap32 (bl.len + o')) o c v i (λ z. absurd (omega arith))
            (omega arith) (omega (arith, n, all, s.1)) (omega (arith, n)) r)
      where
        n : wrap32 (bl.len + o') ≡ bl.len + o'
        n = wrap32_lem (bl.len + o') (omega arith)

        all : total bl.buffers ≡ total fs + total qs
        all = ap total a ∙ total-append fs qs

        by_loop :
            (q : Returned (List Ptr × ℕ × Option BufferList))
            → Left h (drop (o' + l) (list_bytes h qs)) (take l (drop o' (list_bytes h qs))) o c q
            → P (
                q >>= λ t.
                let ps = fs ++ (kept_front qs o' ++ t.0) in
                returns (record bl { buffers = ps; len = t.1; last_p = begin ps }, t.2))
        by_loop (returns (rs, m, c')) (x, y, z, k, cl) =
            let front = kept_front_lem h qs o' v i (omega (arith, all)) in
            let whole : bytes h bl ≡ list_bytes h fs ++ list_bytes h qs =
              ap (list_bytes h) a ∙ list_bytes-append h fs qs in
            let skipped : length (list_bytes h fs) + o' ≡ o =
              omega (arith, length-list_bytes h fs w) in
            (
              inl (omega (arith, size)),
              list_bytes-append h fs (kept_front qs o' ++ rs)
                  ∙ ap (λ t. list_bytes h fs ++ t)
                      (list_bytes-append h (kept_front qs o') rs
                        ∙ ap (λ t. t ++ list_bytes h rs) front.0
                        ∙ ap (λ t. take o' (list_bytes h qs) ++ t) x)
                  ∙ cut_out (list_bytes h fs) (list_bytes h qs) o o' l skipped
                  ∙ ap (λ t. take o t ++ drop (o + l) t) (sym whole),
              (
                AllWithin-append h fs (kept_front qs o' ++ rs) w
                    (AllWithin-append h (kept_front qs o') rs front.1 y),
                omega (
                  arith,
                  total-append fs (kept_front qs o' ++ rs),
                  total-append (kept_front qs o') rs,
                  front.2,
                ),
                k,
              ),
              subst (λ t. Claims h t c c')
                  (ap (λ t. take l t)
                    (cut_skip (list_bytes h fs) (list_bytes h qs) o o' skipped
                      ∙ ap (λ t. drop o t) (sym whole)))
                  cl,
            )
        by_loop end_of_buffer x = absurd x
        by_loop asserts x = x
        by_loop undefined x = x
    by_skip lt pos end_of_buffer x = absurd x
    by_skip lt pos asserts x = x
    by_skip lt pos undefined x = x
