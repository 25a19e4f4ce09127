-- ===== src/Buffers/Splice/Claim.antt =====
-- What claim_by receives from splice (src/buffer.cc).
use msg.Prelude.{
  ℕ, ◌+◌, ◌-◌, ◌≤◌, ◌<◌, ◌≡◌, sym, ap, ◌∙◌, arith, List, [], ◌++◌, length, take, drop, append-nil,
  append_assoc, length-append, Option, none, some,
}
use msg.Buffers.{
  Heap, Ptr, BufferList, Returned, returns, end_of_buffer, asserts, undefined, ◌>>=◌, append_part,
}
use msg.Buffers.View.{ptr_bytes, bytes, IsWithin, IsSound, length-list_bytes}
use msg.Buffers.Append.{Holds, append_part-Holds}
use msg.Buffers.Splice.{claimed}

module _ (h : Heap) where
  -- claim_by is sound, and has room for `l` bytes.
  abbrev pub RoomFor : ℕ → Option BufferList → Type 0
  RoomFor l none = Unit
  RoomFor l (some c) = IsSound h c × (c.len + l < 4294967296)

  -- claim_by has received the bytes `xs` at its end.
  abbrev pub Claims : List ℕ → Option BufferList → Option BufferList → Type 0
  Claims xs none none = Unit
  Claims xs none (some c') = ⊥
  Claims xs (some c) none = ⊥
  Claims xs (some c) (some c') = (bytes h c' ≡ bytes h c ++ xs) × IsSound h c'

  pub Claims-nil : (c : Option BufferList) (l : ℕ) → RoomFor l c → Claims [] c c
  Claims-nil none l r = tt
  Claims-nil (some c) l r = (sym (append-nil (bytes h c)), r.0)

  pub Claims-trans :
      (xs ys : List ℕ) (a b c : Option BufferList)
      → Claims xs a b
      → Claims ys b c
      → Claims (xs ++ ys) a c
  Claims-trans xs ys none none none p q = tt
  Claims-trans xs ys none none (some c) p q = q
  Claims-trans xs ys none (some b) c p q = absurd p
  Claims-trans xs ys (some a) none c p q = absurd p
  Claims-trans xs ys (some a) (some b) none p q = q
  Claims-trans xs ys (some a) (some b) (some c) p q =
      (q.0 ∙ ap (λ t. t ++ ys) p.0 ∙ append_assoc (bytes h a) xs ys, q.1)

  pub left_over :
      (xs : List ℕ) (l : ℕ) (a b : Option BufferList)
      → RoomFor l a
      → Claims xs a b
      → length xs ≤ l
      → RoomFor (l - length xs) b
  left_over xs l none none r c e = tt
  left_over xs l none (some b) r c e = absurd c
  left_over xs l (some a) none r c e = absurd c
  left_over xs l (some a) (some b) r c e = (
    c.1,
    omega (
      arith,
      ap (λ t. length t) c.0,
      length-append (bytes h a) xs,
      length-list_bytes h a.buffers r.0.0,
      length-list_bytes h b.buffers c.1.0,
      r.0.1,
      c.1.1,
    ),
  )

  -- Whether a step that hands `xs` to claim_by goes on, and with what.
  abbrev pub ClaimedBy : List ℕ → Option BufferList → Returned (Option BufferList) → Type 0
  ClaimedBy xs c (returns c') = Claims xs c c'
  ClaimedBy xs c end_of_buffer = ⊥
  ClaimedBy xs c asserts = ⊥
  ClaimedBy xs c undefined = ⊥

  pub claimed-ClaimedBy :
      (p : Ptr) (o l m : ℕ) (c : Option BufferList)
      → IsWithin h p
      → o + l ≤ p.len
      → l ≤ m
      → RoomFor m c
      → ClaimedBy (take l (drop o (ptr_bytes h p))) c (claimed p o l c)
  unfolding claimed
  claimed-ClaimedBy p o l m none w e le r = tt
  claimed-ClaimedBy p o l m (some c) w e le r =
      by_append (append_part p o l c)
        (append_part-Holds h p o l c r.0 w e (omega (arith, w)) (omega arith))
    where
      by_append :
          (a : Returned BufferList)
          → Holds h (bytes h c ++ take l (drop o (ptr_bytes h p))) a
          → ClaimedBy (take l (drop o (ptr_bytes h p))) (some c) (a >>= λ c'. returns (some c'))
      by_append (returns c') x = x
      by_append end_of_buffer x = x
      by_append asserts x = x
      by_append undefined x = x
