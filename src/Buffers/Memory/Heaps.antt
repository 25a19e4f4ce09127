-- ===== src/Buffers/Memory/Heaps.antt =====
-- What a write into one raw, and a new raw, leave of the others (src/buffer.cc).
use msg.Prelude.{
  ℕ, zero, suc, ◌+◌, ◌-◌, ◌≤◌, ◌<◌, ◌≡◌, ◌≢◌, refl, sym, ap, ap₂, ◌∙◌, subst, arith, List, [], ◌∷◌,
  ◌++◌, length, take, drop, set, get_or, length-set, length-append, length-take, length-drop,
  drop-append_all, take-append_all, slice-append_left, ℕ_discrete, take-take, drop-take,
}
use msg.Buffers.{Raw, Heap, Ptr}
use msg.Buffers.View.{no_raw, content_of, ptr_bytes, list_bytes, IsWithin, AllWithin}
use msg.Buffers.Memory.{overwrite, write_raw}

module _ {ℓ} {A : Type ℓ} where
  pub get_or-set_self :
      (xs : List A) (i : ℕ) (v d : A) → i < length xs → get_or (set xs i v) i d ≡ v
  get_or-set_self [] i v d h = elim h [ ]
  get_or-set_self (x ∷ xs) zero v d h = refl
  get_or-set_self (x ∷ xs) (suc i) v d h = get_or-set_self xs i v d (omega arith)

  pub get_or-set_ne :
      (xs : List A) (i j : ℕ) (v d : A) → i ≢ j → get_or (set xs i v) j d ≡ get_or xs j d
  get_or-set_ne [] i j v d h = refl
  get_or-set_ne (x ∷ xs) zero zero v d h = absurd (h refl)
  get_or-set_ne (x ∷ xs) zero (suc j) v d h = refl
  get_or-set_ne (x ∷ xs) (suc i) zero v d h = refl
  get_or-set_ne (x ∷ xs) (suc i) (suc j) v d h = get_or-set_ne xs i j v d (λ e. h (ap suc e))

  pub get_or-append :
      (xs ys : List A) (i : ℕ) (d : A) → i < length xs → get_or (xs ++ ys) i d ≡ get_or xs i d
  get_or-append [] ys i d h = elim h [ ]
  get_or-append (x ∷ xs) ys zero d h = refl
  get_or-append (x ∷ xs) ys (suc i) d h = get_or-append xs ys i d (omega arith)

  pub get_or-append_end : (xs : List A) (y d : A) → get_or (xs ++ (y ∷ [])) (length xs) d ≡ y
  get_or-append_end [] y d = refl
  get_or-append_end (x ∷ xs) y d = get_or-append_end xs y d

pub length-overwrite :
    (o : ℕ) (src c : List ℕ) → o + length src ≤ length c → length (overwrite o src c) ≡ length c
length-overwrite o src c e =
    length-append (take o c) (src ++ drop (o + length src) c)
    ∙ omega (
      arith,
      length-append src (drop (o + length src) c),
      length-take o c,
      length-drop (o + length src) c,
    )

-- The slices in front of a write stay, and the write is read back.
pub overwrite_front :
    (o a l : ℕ) (src c : List ℕ)
    → a + l ≤ o
    → o + length src ≤ length c
    → take l (drop a (overwrite o src c)) ≡ take l (drop a c)
overwrite_front o a l src c e f =
    slice-append_left a l (take o c) (src ++ drop (o + length src) c)
      (omega (arith, length-take o c))
    ∙ ap (λ t. take l t) (drop-take a o c)
    ∙ take-take l (o - a) (drop a c) (omega arith)

pub overwrite_back :
    (o : ℕ) (src c : List ℕ)
    → o + length src ≤ length c
    → take (length src) (drop o (overwrite o src c)) ≡ src
overwrite_back o src c e =
    ap (λ t. take (length src) t)
      (drop-append_all o (take o c) (src ++ drop (o + length src) c)
        (length-take o c ∙ omega arith))
    ∙ take-append_all (length src) src (drop (o + length src) c) refl

-- A ptr keeps its bytes from one heap to the next.
abbrev pub Kept : Heap → Heap → Ptr → Type 0
Kept h h' p = (ptr_bytes h' p ≡ ptr_bytes h p) × IsWithin h' p

module _ (h : Heap) (r o : ℕ) (src : List ℕ) (lt : r < length h)
    (e : o + length src ≤ length (content_of h r)) where
  pub content-write_self :
      (s : ℕ) → r ≡ s → content_of (write_raw r o src h) s ≡ overwrite o src (content_of h s)
  content-write_self s q =
      subst (λ t. content_of (write_raw r o src h) t ≡ overwrite o src (content_of h t)) q
        (ap (λ x. x.content) (get_or-set_self h r _ no_raw lt))

  content-write_other : (s : ℕ) → r ≢ s → content_of (write_raw r o src h) s ≡ content_of h s
  content-write_other s q = ap (λ x. x.content) (get_or-set_ne h r s _ no_raw q)

  pub length-content-write :
      (s : ℕ) → length (content_of (write_raw r o src h) s) ≡ length (content_of h s)
  length-content-write s = elim (ℕ_discrete r s) [
    | yes q ↦
        ap (λ t. length t) (content-write_self s q)
        ∙ length-overwrite o src (content_of h s)
            (subst (λ t. o + length src ≤ length (content_of h t)) q e)
    | no q ↦ ap (λ t. length t) (content-write_other s q)
  ]

  pub length-write : length (write_raw r o src h) ≡ length h
  length-write = length-set h r _

  -- A write behind all that a ptr shows does not change it.
  pub write_raw-Kept :
      (p : Ptr) → IsWithin h p → (p.raw ≡ r → p.off + p.len ≤ o) → Kept h (write_raw r o src h) p
  write_raw-Kept p w f =
      let len = length-content-write p.raw in
      (
        elim (ℕ_discrete r p.raw) [
          | yes q ↦
              ap (λ t. take p.len (drop p.off t)) (content-write_self p.raw q)
              ∙ overwrite_front o p.off p.len src (content_of h p.raw) (f (sym q))
                  (subst (λ t. o + length src ≤ length (content_of h t)) q e)
          | no q ↦ ap (λ t. take p.len (drop p.off t)) (content-write_other p.raw q)
        ],
        (omega (arith, length-write, w.0), omega (arith, len, w.1), w.2, omega (arith, len, w.3)),
      )

-- A new raw changes no ptr.
pub new_raw-Kept : (h : Heap) (x : Raw) (p : Ptr) → IsWithin h p → Kept h (h ++ (x ∷ [])) p
new_raw-Kept h x p w =
    let same : content_of (h ++ (x ∷ [])) p.raw ≡ content_of h p.raw =
      ap (λ y. y.content) (get_or-append h (x ∷ []) p.raw no_raw w.0) in
    let len = ap (λ t. length t) same in
    (
      ap (λ t. take p.len (drop p.off t)) same,
      (
        omega (arith, length-append h (x ∷ []), w.0),
        omega (arith, len, w.1),
        w.2,
        omega (arith, len, w.3),
      ),
    )

abbrev pub AllKept : Heap → Heap → List Ptr → Type 0
AllKept h h' [] = Unit
AllKept h h' (p ∷ ps) = Kept h h' p × AllKept h h' ps

pub list_bytes-AllKept :
    (h h' : Heap) (ps : List Ptr) → AllKept h h' ps → list_bytes h' ps ≡ list_bytes h ps
list_bytes-AllKept h h' [] k = refl
list_bytes-AllKept h h' (p ∷ ps) k = ap₂ ◌++◌ k.0.0 (list_bytes-AllKept h h' ps k.1)

pub AllKept-AllWithin : (h h' : Heap) (ps : List Ptr) → AllKept h h' ps → AllWithin h' ps
AllKept-AllWithin h h' [] k = tt
AllKept-AllWithin h h' (p ∷ ps) k = (k.0.1, AllKept-AllWithin h h' ps k.1)
