-- ===== src/Buffers/Reading/Rounds.antt =====
-- The rounds of copying from an iterator on (src/buffer.cc).
use msg.Prelude.{
  ℕ, zero, suc, ◌+◌, ◌-◌, ◌≤◌, ◌<◌, ◌≡◌, ◌≢◌, refl, sym, ap, ap₂, ◌∙◌, subst, min, arith, List, [],
  ◌∷◌, ◌++◌, length, take, drop, ◌==◌, if◌then◌else◌, by_if, drop-drop, take_add, slice-append_left,
}
use msg.Buffers.{Heap, Ptr, Returned, returns, end_of_buffer, asserts, undefined, ◌>>=◌}
use msg.Buffers.View.{ptr_bytes, list_bytes, total, AllWithin, length-ptr_bytes}
use msg.Buffers.Substr.{Inside}
use msg.Buffers.Reading.{Iterator, iterator_advance, copy_loop, reseek, iterator_copy}
use msg.Buffers.Reading.Slices.{At, AtBy, iterator_advance-At, reseek-At}

module _ (h : Heap) (whole : List Ptr) (small : total whole < 2147483648)
    (within : AllWithin h whole) where
  -- `l` bytes from `o` on, and the iterator behind them.
  abbrev pub Copied : ℕ → ℕ → Returned (List ℕ × Iterator) → Type 0
  Copied o l (returns (bs, it)) =
      (bs ≡ take l (drop o (list_bytes h whole))) × At h whole (o + l) it
  Copied o l end_of_buffer = ⊥
  Copied o l asserts = ⊥
  Copied o l undefined = ⊥

  -- A round of the loop, and the rest of it.
  module _ (o l n : ℕ) (out : List ℕ) (le : n ≤ l)
      (first : out ≡ take n (drop o (list_bytes h whole))) where
    join :
        (r : Returned (List ℕ × Iterator))
        → Copied (o + n) (l - n) r
        → Copied o l (r >>= λ r. returns (out ++ r.0, r.1))
    join (returns (bs, it)) (e, a) =
        let xs : List ℕ = drop o (list_bytes h whole) in
        let sum : n + (l - n) ≡ l = omega arith in
        let there : o + n + (l - n) ≡ o + l = omega arith in
        (
          ap₂ ◌++◌ first (e ∙ ap (λ t. take (l - n) t) (sym (drop-drop n o (list_bytes h whole))))
              ∙ sym (take_add n (l - n) xs)
              ∙ ap (λ k. take k xs) sum,
          subst (λ k. At h whole k it) there a,
        )
    join end_of_buffer x = x
    join asserts x = x
    join undefined x = x

    go_on :
        (rounds : ℕ) (r : Returned Iterator)
        → AtBy h whole (o + n) r
        → ((it : Iterator)
            → At h whole (o + n) it
            → Copied (o + n) (l - n) (copy_loop rounds h (l - n) it))
        → Copied o l
            (r >>= λ it'. copy_loop rounds h (l - n) it' >>= λ r. returns (out ++ r.0, r.1))
    go_on rounds (returns it) a ih = join (copy_loop rounds h (l - n) it) (ih it a)
    go_on rounds end_of_buffer x ih = x
    go_on rounds asserts x ih = x
    go_on rounds undefined x ih = x

  copy_loop-Copied :
      (rounds o l : ℕ) (it : Iterator)
      → At h whole o it
      → o + l ≤ total whole
      → l ≤ rounds
      → Copied o l (copy_loop rounds h l it)
  unfolding copy_loop
  copy_loop-Copied rounds o zero it a e f =
      let z : o ≡ o + 0 = omega arith in (refl, subst (λ k. At h whole k it) z a)
  copy_loop-Copied zero o (suc l) it a e f = absurd (omega arith)
  copy_loop-Copied (suc rounds) o (suc l) it a e f = by_p it.p refl λ n le le' it' a'.
      copy_loop-Copied rounds (o + n) (suc l - n) it' a' (omega arith) (omega arith)
    where
      by_p :
          (p : List Ptr)
          → it.p ≡ p
          → ((n : ℕ)
              → 0 < n
              → n ≤ suc l
              → (it' : Iterator) → At h whole (o + n) it'
              → Copied (o + n) (suc l - n) (copy_loop rounds h (suc l - n) it'))
          → Copied o (suc l) (elim p as (λ p. Returned (List ℕ × Iterator)) [
            | [] ↦ end_of_buffer
            | p ∷ ps ↦
                let howmuch = min (p.len - it.p_off) (suc l) in
                let out = take howmuch (drop it.p_off (ptr_bytes h p)) in
                let more = iterator_advance howmuch it >>= λ it'.
                copy_loop rounds h (suc l - howmuch) it' >>= λ r. returns (out ++ r.0, r.1) in
                if p.len == 0 then asserts else more
          ])
      by_p [] q ih = absurd (omega (arith, ap total q, a))
      by_p (p ∷ ps) q ih =
          let n : ℕ = min (p.len - it.p_off) (suc l) in
          let here : AllWithin h (p ∷ ps) = subst (λ z. AllWithin h z) q a.4 in
          let inside : it.p_off < p.len = subst (λ z. Inside it.p_off z) q a.5 in
          let size : length (ptr_bytes h p) ≡ p.len = length-ptr_bytes h p here.0 in
          by_if (Copied o (suc l)) (p.len == 0) (λ t. absurd (ground arith))
            λ t.
              go_on o (suc l) n (take n (drop it.p_off (ptr_bytes h p))) (omega arith)
                (sym (
                  ap (λ t. take n t) (a.1 ∙ ap (λ z. drop it.p_off (list_bytes h z)) q)
                  ∙ slice-append_left it.p_off n (ptr_bytes h p) (list_bytes h ps)
                      (omega (arith, size))))
                rounds (iterator_advance n it)
                (iterator_advance-At h whole small within o n it a (omega arith))
                (ih n (omega arith) (omega arith))

  pub iterator_copy-Copied :
      (o l : ℕ) (it : Iterator)
      → o + l ≤ total whole
      → it.off ≡ o
      → (it.p ≢ [] → At h whole o it)
      → Copied o l (iterator_copy h whole l it)
  unfolding iterator_copy
  iterator_copy-Copied o l it e f a =
      placed (reseek whole it) (reseek-At h whole small within o it (omega arith) f a)
    where
      placed :
          (r : Returned Iterator) → AtBy h whole o r → Copied o l (r >>= λ it'. copy_loop l h l it')
      placed (returns it') b = copy_loop-Copied l o l it' b e (omega arith)
      placed end_of_buffer x = absurd x
      placed asserts x = absurd x
      placed undefined x = absurd x
