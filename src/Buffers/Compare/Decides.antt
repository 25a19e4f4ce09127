-- ===== src/Buffers/Compare/Decides.antt =====
-- contents_equal decides whether two lists are the same abstract value (src/buffer.cc).
use msg.Prelude.{
  ◌⊎◌, ℕ, zero, suc, ◌+◌, ◌-◌, ◌≤◌, ◌<◌, ◌≡◌, ◌↔◌, refl, sym, ap, ap₂, ◌∙◌, ==_iff, drop-nil,
  drop-append_all, min, arith, Bool, true, false, List, [], ◌∷◌, ◌++◌, length, take, drop, ◌==◌,
  ◌&&◌, by_if, inl, inr, drop-drop, take-append-drop, slice-append_left,
}
use mathlib.Core.Quot
use mathlib.Core.Quot.{Quot}
use msg.Buffers.{Heap, Ptr, BufferList, Returned, returns, end_of_buffer, asserts, undefined}
use msg.Buffers.View.{
  ptr_bytes, list_bytes, bytes, total, AllWithin, IsSound, length-ptr_bytes, length-list_bytes,
}
use msg.Buffers.Substr.{Inside, zero-Inside}
use msg.Buffers.Compare.{same_bytes, move_on, equal_loop, contents_equal}

and_iff : (a b : Bool) → ((a && b) ≡ true) ↔ ((a ≡ true) × (b ≡ true))
and_iff true b = (λ h. (refl, h), λ h. h.1)
and_iff false b = (λ h. absurd (cc), λ h. h.0)

same_bytes_iff : (xs ys : List ℕ) → (same_bytes xs ys ≡ true) ↔ (xs ≡ ys)
same_bytes_iff [] [] = (λ _. refl, λ _. refl)
same_bytes_iff [] (y ∷ ys) = (λ h. absurd (cc), λ h. absurd (cc))
same_bytes_iff (x ∷ xs) [] = (λ h. absurd (cc), λ h. absurd (cc))
same_bytes_iff (x ∷ xs) (y ∷ ys) = (
  λ h.
      let both = (and_iff (x == y) (same_bytes xs ys)).0 h in
      ap₂ ◌∷◌ ((==_iff x y).0 both.0) ((same_bytes_iff xs ys).0 both.1),
  λ h.
      let head : x ≡ y = cc in
      let tail : xs ≡ ys = cc in
      (and_iff (x == y) (same_bytes xs ys)).1 ((==_iff x y).1 head, (same_bytes_iff xs ys).1 tail),
)

-- The code's answer is whether `xs` and `ys` are equal.
abbrev pub Decides : List ℕ → List ℕ → Returned Bool → Type 0
Decides xs ys (returns b) = (b ≡ true) ↔ (xs ≡ ys)
Decides xs ys end_of_buffer = ⊥
Decides xs ys asserts = ⊥
Decides xs ys undefined = ⊥

-- Equal blocks in front do not change the answer.
Decides-drop :
    (m : ℕ) (xs ys : List ℕ) {xs' ys' : List ℕ} (r : Returned Bool)
    → take m xs ≡ take m ys
    → drop m xs ≡ xs'
    → drop m ys ≡ ys'
    → Decides xs' ys' r
    → Decides xs ys r
Decides-drop m xs ys (returns b) e u v d = (
  λ h. sym (take-append-drop m xs) ∙ ap₂ ◌++◌ e (u ∙ d.0 h ∙ sym v) ∙ take-append-drop m ys,
  λ h. d.1 (sym u ∙ ap (λ t. drop m t) h ∙ v),
)
Decides-drop m xs ys end_of_buffer e u v d = d
Decides-drop m xs ys asserts e u v d = d
Decides-drop m xs ys undefined e u v d = d

module _ (h : Heap) where
  -- The same bytes are still to be compared, in a place that is within the list.
  abbrev Moved : Ptr → List Ptr → ℕ → List Ptr × ℕ → Type 0
  Moved p ps o (qs, o') =
      (drop o (list_bytes h (p ∷ ps)) ≡ drop o' (list_bytes h qs))
      × (total qs + o ≡ total (p ∷ ps) + o')
      × AllWithin h qs
      × Inside o' qs
      × (((o ≡ p.len) × (length qs ≡ length ps)) ⊎ ((o < p.len) × (length qs ≡ suc (length ps))))

  move_on-Moved :
      (p : Ptr) (ps : List Ptr) (o : ℕ)
      → AllWithin h (p ∷ ps)
      → o ≤ p.len
      → Moved p ps o (move_on p ps o)
  unfolding move_on
  move_on-Moved p ps o w e =
      by_if (Moved p ps o) (o == p.len)
        (λ t. (
          drop-append_all o (ptr_bytes h p) (list_bytes h ps)
              (length-ptr_bytes h p w.0 ∙ ground arith),
          ground arith,
          w.1,
          zero-Inside h ps w.1,
          inl (ground arith, refl),
        ))
        λ t. (refl, omega arith, w, ground arith, inr (ground arith, refl))

  equal_loop-Decides :
      (rounds : ℕ) (ps : List Ptr) (o : ℕ) (qs : List Ptr) (o' : ℕ)
      → AllWithin h ps
      → AllWithin h qs
      → Inside o ps
      → Inside o' qs
      → total ps + o' ≡ total qs + o
      → length ps + length qs ≤ rounds
      → Decides
          (drop o (list_bytes h ps))
          (drop o' (list_bytes h qs))
          (equal_loop rounds h ps o qs o')
  unfolding equal_loop
  equal_loop-Decides rounds [] o [] o' w v i j e f =
      (λ _. drop-nil o ∙ sym (drop-nil o'), λ _. refl)
  equal_loop-Decides rounds [] o (q ∷ qs) o' w v i j e f = absurd (omega arith)
  equal_loop-Decides rounds (p ∷ ps) o [] o' w v i j e f = absurd (omega arith)
  equal_loop-Decides zero (p ∷ ps) o (q ∷ qs) o' w v i j e f = absurd (omega arith)
  equal_loop-Decides (suc rounds) (p ∷ ps) o (q ∷ qs) o' w v i j e f =
      by_if (Decides (drop o (list_bytes h (p ∷ ps))) (drop o' (list_bytes h (q ∷ qs))))
        (same_bytes (take len (drop o (ptr_bytes h p))) (take len (drop o' (ptr_bytes h q))))
        (λ t.
          let x = move_on-Moved p ps (o + len) w (omega arith) in
          let y = move_on-Moved q qs (o' + len) v (omega arith) in
          let a = move_on p ps (o + len) in
          let b = move_on q qs (o' + len) in
          Decides-drop len (drop o (list_bytes h (p ∷ ps))) (drop o' (list_bytes h (q ∷ qs)))
            (equal_loop rounds h a.0 a.1 b.0 b.1) (left ∙ (same_bytes_iff _ _).0 t ∙ sym right)
            (drop-drop len o (list_bytes h (p ∷ ps)) ∙ x.0)
            (drop-drop len o' (list_bytes h (q ∷ qs)) ∙ y.0)
            (equal_loop-Decides rounds a.0 a.1 b.0 b.1 x.2 y.2 x.3 y.3 (omega (arith, x.1, y.1))
              (omega (arith, x.4, y.4))))
        λ t. (
          λ u. absurd (cc),
          λ u.
              let found = (same_bytes_iff _ _).1 (sym left ∙ ap (λ t. take len t) u ∙ right) in
              absurd (cc),
        )
    where
      len : ℕ
      len = min (p.len - o) (q.len - o')

      left : take len (drop o (list_bytes h (p ∷ ps))) ≡ take len (drop o (ptr_bytes h p))
      left =
          slice-append_left o len (ptr_bytes h p) (list_bytes h ps)
            (omega (arith, length-ptr_bytes h p w.0))

      right : take len (drop o' (list_bytes h (q ∷ qs))) ≡ take len (drop o' (ptr_bytes h q))
      right =
          slice-append_left o' len (ptr_bytes h q) (list_bytes h qs)
            (omega (arith, length-ptr_bytes h q v.0))

-- The sound lists over a heap, and the abstract values: lists are one value when their bytes agree,
-- however they are cut into ptrs.
abbrev pub SoundList : Heap → Type 0
SoundList h = (bl : BufferList) × IsSound h bl

abbrev pub SameContents : (h : Heap) → SoundList h → SoundList h → Type 0
SameContents h a b = bytes h a.0 ≡ bytes h b.0

abbrev pub Contents : Heap → Type 0
Contents h = Quot (SameContents h)

abbrev pub value : (h : Heap) → SoundList h → Contents h
value h a = Quot.mk a

bytes_set : IsSet (List ℕ)
bytes_set = hlevel

flat_contents : (h : Heap) → Contents h → List ℕ
flat_contents h = Quot.lift bytes_set (λ a. bytes h a.0) λ a b e. e

-- The code's answer is whether the two lists are one abstract value.
abbrev pub DecidesContents : (h : Heap) → SoundList h → SoundList h → Returned Bool → Type 0
DecidesContents h a b (returns c) = (c ≡ true) ↔ (value h a ≡ value h b)
DecidesContents h a b end_of_buffer = ⊥
DecidesContents h a b asserts = ⊥
DecidesContents h a b undefined = ⊥

effective :
    (h : Heap) (a b : SoundList h) (r : Returned Bool)
    → Decides (bytes h a.0) (bytes h b.0) r
    → DecidesContents h a b r
unfolding flat_contents
effective h a b (returns c) d = (λ t. Quot.sound (d.0 t), λ e. d.1 (ap (flat_contents h) e))
effective h a b end_of_buffer d = d
effective h a b asserts d = d
effective h a b undefined d = d

-- In the quotient of the sound lists by their bytes, contents_equal decides equality: it answers true
-- exactly when the two lists are one abstract value, however either is cut into ptrs. On sound lists
-- its loop never reads a list at its end and its assertion holds.
pub contents_equal-DecidesContents :
    (h : Heap) (a b : SoundList h) → DecidesContents h a b (contents_equal h a.0 b.0)
unfolding contents_equal
contents_equal-DecidesContents h a b =
    by_if (DecidesContents h a b) (a.0.len == b.0.len)
      (λ t. effective h a b (equal_loop rounds h a.0.buffers 0 b.0.buffers 0) (
        equal_loop-Decides h rounds a.0.buffers 0 b.0.buffers 0 a.1.0 b.1.0
          (zero-Inside h a.0.buffers a.1.0) (zero-Inside h b.0.buffers b.1.0)
          (ground (arith, a.1.1, b.1.1)) (omega arith)))
      λ t.
        effective h a b (returns false)
          (λ u. absurd (cc), λ u. absurd (ground (arith, same u, size a, size b)))
  where
    rounds : ℕ
    rounds = length a.0.buffers + length b.0.buffers

    size : (x : SoundList h) → length (bytes h x.0) ≡ x.0.len
    size x = length-list_bytes h x.0.buffers x.1.0 ∙ sym x.1.1

    same : bytes h a.0 ≡ bytes h b.0 → length (bytes h a.0) ≡ length (bytes h b.0)
    same u = ap (λ t. length t) u
