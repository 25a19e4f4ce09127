-- ===== src/Buffers/Splice/Loops.antt =====
-- The second loop of splice (src/buffer.cc).
use msg.Prelude.{
  ℕ, zero, suc, ◌+◌, ◌-◌, ◌≤◌, ◌<◌, ◌≡◌, refl, sym, ap, ◌∙◌, subst, arith, List, [], ◌∷◌, ◌++◌,
  length, take, drop, ltb, by_if, Option, drop-append, drop-append_right, length-drop,
  slice-append_left, slice-append_through, take_all, drop-nil,
}
use msg.Buffers.{
  Heap, Ptr, BufferList, Returned, returns, end_of_buffer, asserts, undefined, ◌>>=◌, wrap32,
}
use msg.Buffers.View.{
  ptr_bytes, list_bytes, content_of, total, IsWithin, AllWithin, length-ptr_bytes,
}
use msg.Buffers.Substr.{wrap32_lem, Inside, zero-Inside, ptr_bytes-rest}
use msg.Buffers.Splice.Claim.{
  RoomFor, Claims, Claims-nil, Claims-trans, left_over, ClaimedBy, claimed-ClaimedBy,
}
use msg.Buffers.Splice.{claimed, sub32, splice_loop}

module _ (h : Heap) where
  -- What the second loop leaves behind the kept front of `f` bytes.
  abbrev pub Left :
      List ℕ → List ℕ → ℕ → Option BufferList → Returned (List Ptr × ℕ × Option BufferList) → Type 0
  Left bs xs f c (returns (rs, n, c')) =
      (list_bytes h rs ≡ bs)
      × AllWithin h rs
      × (n ≡ f + total rs)
      × (n < 4294967296)
      × Claims h xs c c'
  Left bs xs f c end_of_buffer = ⊥
  Left bs xs f c asserts = ⊥
  Left bs xs f c undefined = ⊥

  pub sub32_lem : (a b : ℕ) → b ≤ a → a < 4294967296 → sub32 a b ≡ a - b
  unfolding sub32 wrap32
  sub32_lem a b e f = omega arith

  -- The last ptr of the range keeps its end.
  pub kept_bytes :
      (p : Ptr) (o : ℕ)
      → IsWithin h p
      → o < p.len
      → let k = record p { off = wrap32 (o + p.off); len = p.len - o } in
        (ptr_bytes h k ≡ drop o (ptr_bytes h p)) × IsWithin h k
  kept_bytes p o w e =
      let same : wrap32 (o + p.off) ≡ p.off + o =
        wrap32_lem (o + p.off) (omega (arith, w)) ∙ omega arith in
      (
        ap (λ k. take (p.len - o) (drop k (content_of h p.raw))) same
            ∙ ptr_bytes-rest h p o w (omega arith),
        (w.0, omega (arith, same, w.1), omega arith, w.3),
      )

  module _ (p : Ptr) (ps : List Ptr) (o l n f : ℕ) (c : Option BufferList) (w : IsWithin h p)
      (ws : AllWithin h ps) (e : n ≡ f + (p.len + total ps)) (m : n < 4294967296)
      (i : o < p.len) where
    -- The range ends in `p`.
    pub keep_end :
        (r : Returned (Option BufferList))
        → o + l < p.len
        → ClaimedBy h (take l (drop o (ptr_bytes h p))) c r
        → Left
            (drop (o + l) (ptr_bytes h p ++ list_bytes h ps))
            (take l (drop o (ptr_bytes h p ++ list_bytes h ps)))
            f
            c
            (r >>= λ c'. returns (
              record p { off = wrap32 (o + l + p.off); len = p.len - (o + l) } ∷ ps,
              sub32 n (o + l),
              c',
            ))
    keep_end (returns c') lt k =
        let size : length (ptr_bytes h p) ≡ p.len = length-ptr_bytes h p w in
        let kept = kept_bytes p (o + l) w lt in
        let gone : sub32 n (o + l) ≡ n - (o + l) = sub32_lem n (o + l) (omega arith) m in
        (
          ap (λ t. t ++ list_bytes h ps) kept.0
              ∙ sym (drop-append (o + l) (ptr_bytes h p) (list_bytes h ps) (omega arith)),
          (kept.1, ws),
          omega (arith, gone),
          omega (arith, gone),
          subst (λ t. Claims h t c c')
              (sym (slice-append_left o l (ptr_bytes h p) (list_bytes h ps) (omega arith))) k,
        )
    keep_end end_of_buffer lt k = k
    keep_end asserts lt k = k
    keep_end undefined lt k = k

    -- The range goes on behind `p`.
    pub hose_through :
        (r : Returned (List Ptr × ℕ × Option BufferList)) (c' : Option BufferList)
        → p.len - o ≤ l
        → Claims h (drop o (ptr_bytes h p)) c c'
        → Left
            (drop (l - (p.len - o)) (list_bytes h ps))
            (take (l - (p.len - o)) (list_bytes h ps))
            f
            c'
            r
        → Left
            (drop (o + l) (ptr_bytes h p ++ list_bytes h ps))
            (take l (drop o (ptr_bytes h p ++ list_bytes h ps)))
            f
            c
            r
    hose_through (returns (rs, n', d)) c' le k (a, u, t, v, q) =
        let size : length (ptr_bytes h p) ≡ p.len = length-ptr_bytes h p w in
        let rest : l - (p.len - o) ≡ o + l - length (ptr_bytes h p) = omega arith in
        (
          a
              ∙ ap (λ k. drop k (list_bytes h ps)) rest
              ∙ sym (drop-append_right (o + l) (ptr_bytes h p) (list_bytes h ps) (omega arith)),
          u,
          t,
          v,
          subst (λ t. Claims h t c d)
              (sym (
                slice-append_through o l (p.len - o) (ptr_bytes h p) (list_bytes h ps) (omega arith)
                  le))
              (Claims-trans h (drop o (ptr_bytes h p)) (take (l - (p.len - o)) (list_bytes h ps)) c
                c' d k q),
        )
    hose_through end_of_buffer c' le k x = x
    hose_through asserts c' le k x = x
    hose_through undefined c' le k x = x

  pub splice_loop-Left :
      (ps : List Ptr) (o l n f : ℕ) (c : Option BufferList)
      → AllWithin h ps
      → Inside o ps
      → (l ≡ 0 → o ≡ 0)
      → o + l < 4294967296
      → n ≡ f + total ps
      → n < 4294967296
      → RoomFor h l c
      → Left
          (drop (o + l) (list_bytes h ps))
          (take l (drop o (list_bytes h ps)))
          f
          c
          (splice_loop ps o l n c)
  unfolding splice_loop
  splice_loop-Left ps o zero n f c w i z b e m r =
      let none : 0 ≡ o + 0 = omega (arith, z refl) in
      (ap (λ k. drop k (list_bytes h ps)) none, w, e, m, Claims-nil h c 0 r)
  splice_loop-Left [] o (suc l) n f c w i z b e m r = (
    sym (drop-nil (o + suc l)),
    tt,
    e,
    m,
    subst (λ t. Claims h t c c) (sym (ap (λ t. take (suc l) t) (drop-nil o)))
        (Claims-nil h c (suc l) r),
  )
  splice_loop-Left (p ∷ ps) o (suc l) n f c w i z b e m r =
      by_if P (ltb (wrap32 (o + suc l)) p.len)
        (λ t.
          let lt : o + suc l < p.len = ground (arith, cut) in
          subst
            (λ k. P (
              claimed p o (suc l) c >>= λ c'.
              returns (record p { off = wrap32 (k + p.off); len = p.len - k } ∷ ps, sub32 n k, c')))
            (sym cut)
            (keep_end p ps o (suc l) n f c w.0 w.1 e m i (claimed p o (suc l) c) lt
              (claimed-ClaimedBy h p o (suc l) (suc l) c w.0 (omega arith) (omega arith) r)))
        λ t.
          let le : p.len - o ≤ suc l = ground (arith, cut) in
          let gone : sub32 n p.len ≡ n - p.len = sub32_lem n p.len (omega arith) m in
          hose (claimed p o (p.len - o) c) le
            (claimed-ClaimedBy h p o (p.len - o) (suc l) c w.0 (omega arith) le r)
            λ c' room.
              splice_loop-Left ps 0 (suc l - (p.len - o)) (sub32 n p.len) f c' w.1
                (zero-Inside h ps w.1) (λ _. refl) (omega arith) (omega (arith, gone))
                (omega (arith, gone)) room
    where
      P : Returned (List Ptr × ℕ × Option BufferList) → Type 0
      P =
          Left (drop (o + suc l) (ptr_bytes h p ++ list_bytes h ps))
            (take (suc l) (drop o (ptr_bytes h p ++ list_bytes h ps))) f c

      cut : wrap32 (o + suc l) ≡ o + suc l
      cut = wrap32_lem (o + suc l) b

      hose :
          (q : Returned (Option BufferList))
          → p.len - o ≤ suc l
          → ClaimedBy h (take (p.len - o) (drop o (ptr_bytes h p))) c q
          → ((c' : Option BufferList)
              → RoomFor h (suc l - (p.len - o)) c'
              → Left
                  (drop (0 + (suc l - (p.len - o))) (list_bytes h ps))
                  (take (suc l - (p.len - o)) (list_bytes h ps))
                  f
                  c'
                  (splice_loop ps 0 (suc l - (p.len - o)) (sub32 n p.len) c'))
          → P (q >>= λ c'. splice_loop ps 0 (suc l - (p.len - o)) (sub32 n p.len) c')
      hose (returns c') le k ih =
          let pb : List ℕ = ptr_bytes h p in
          let d : ℕ = suc l - (p.len - o) in
          let size : length (drop o pb) ≡ p.len - o =
            length-drop o pb ∙ ap (λ n. n - o) (length-ptr_bytes h p w.0) in
          let got : Claims h (drop o pb) c c' =
            subst (λ t. Claims h t c c') (take_all (p.len - o) (drop o pb) (omega (arith, size)))
              k in
          let room : RoomFor h d c' =
            subst (λ j. RoomFor h (suc l - j) c') size
              (left_over h (drop o pb) (suc l) c c' r got (omega (arith, size))) in
          let same : 0 + d ≡ d = omega arith in
          let rest = splice_loop ps 0 d (sub32 n p.len) c' in
          hose_through p ps o (suc l) n f c w.0 w.1 e m i rest c' le got (
            subst (λ j. Left (drop j (list_bytes h ps)) (take d (list_bytes h ps)) f c' rest) same
              (ih c' room))
      hose end_of_buffer le k ih = k
      hose asserts le k ih = k
      hose undefined le k ih = k
