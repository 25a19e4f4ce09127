-- ===== src/Dispatch/Removal.antt =====
-- What remove_by_class leaves and takes (src/FIFOQueue.h).
use msg.Prelude.{
  ℕ, ◌≡◌, ◌≢◌, refl, subst, arith, sym, ap, ◌∙◌, List, [], ◌∷◌, ◌++◌, ◌==◌, if◌then◌else◌,
  Bool-cases, inl, inr,
}
use msg.Dispatch.{
  QueueItem, SubQueue, FifoQueue, sub_remove, sub_removed, high_remove, high_removed,
  remove_by_class, is_empty,
}
use msg.Dispatch.Order.{flatten, contents}

sub_remove-append :
    (k : ℕ) (xs ys : SubQueue) → sub_remove k (xs ++ ys) ≡ sub_remove k xs ++ sub_remove k ys
unfolding sub_remove
sub_remove-append k [] ys = refl
sub_remove-append k ((cl, x) ∷ xs) ys = elim (Bool-cases (cl == k)) [
  | inl e ↦ rw e (sub_remove-append k xs ys)
  | inr e ↦ rw e (ap (λ q. (cl, x) ∷ q) (sub_remove-append k xs ys))
]

sub_removed-append :
    (k : ℕ) (xs ys : SubQueue) → sub_removed k (xs ++ ys) ≡ sub_removed k xs ++ sub_removed k ys
unfolding sub_removed
sub_removed-append k [] ys = refl
sub_removed-append k ((cl, x) ∷ xs) ys = elim (Bool-cases (cl == k)) [
  | inl e ↦ rw e (ap (λ q. x ∷ q) (sub_removed-append k xs ys))
  | inr e ↦ rw e (sub_removed-append k xs ys)
]

-- A sub-queue that is left empty can go.
flatten_skip :
    (p : ℕ) (q : SubQueue) (hs : List (ℕ × SubQueue))
    → flatten (if is_empty q then hs else (p, q) ∷ hs) ≡ q ++ flatten hs
flatten_skip p [] hs = refl
flatten_skip p (x ∷ q) hs = refl

flatten-high_remove :
    (k : ℕ) (hs : List (ℕ × SubQueue)) → flatten (high_remove k hs) ≡ sub_remove k (flatten hs)
unfolding high_remove sub_remove
flatten-high_remove k [] = refl
flatten-high_remove k ((p, q) ∷ hs) =
    flatten_skip p (sub_remove k q) (high_remove k hs)
    ∙ ap (λ t. sub_remove k q ++ t) (flatten-high_remove k hs)
    ∙ sym (sub_remove-append k q (flatten hs))

high_removed-flatten :
    (k : ℕ) (hs : List (ℕ × SubQueue)) → high_removed k hs ≡ sub_removed k (flatten hs)
unfolding high_removed sub_removed
high_removed-flatten k [] = refl
high_removed-flatten k ((p, q) ∷ hs) =
    ap (λ t. sub_removed k q ++ t) (high_removed-flatten k hs)
    ∙ sym (sub_removed-append k q (flatten hs))

-- `kept` and `taken` share out the items of a queue by their class, each in the order of the queue:
-- `taken` has those of the class `k`, and `kept` the others.
pub data Parted (k : ℕ) : SubQueue → SubQueue → List QueueItem → Type 0 where
  nothing : Parted k [] [] []
  takes :
      {x : QueueItem} {q kept : SubQueue} {taken : List QueueItem}
      → Parted k q kept taken
      → Parted k ((k, x) ∷ q) kept (x ∷ taken)
  keeps :
      {cl : ℕ} {x : QueueItem} {q kept : SubQueue} {taken : List QueueItem}
      → cl ≢ k
      → Parted k q kept taken
      → Parted k ((cl, x) ∷ q) ((cl, x) ∷ kept) taken

sub_remove-Parted : (k : ℕ) (q : SubQueue) → Parted k q (sub_remove k q) (sub_removed k q)
unfolding sub_remove sub_removed
sub_remove-Parted k [] = nothing
sub_remove-Parted k ((cl, x) ∷ q) = elim (Bool-cases (cl == k)) [
  | inl e ↦
      let same : k ≡ cl = ground arith in
      rw e (
        subst (λ c. Parted k ((c, x) ∷ q) (sub_remove k q) (x ∷ sub_removed k q)) same
          (takes (sub_remove-Parted k q)))
  | inr e ↦ rw e (keeps (λ s. ground arith) (sub_remove-Parted k q))
]

-- remove_by_class parts the contents, in the order in which they would have been handed out: the items
-- that are removed are exactly those of the class, and what is left are exactly the others, each in
-- that order.
pub remove_by_class-Parted :
    (k : ℕ) (f : FifoQueue)
    → Parted k (contents f) (contents (remove_by_class k f).0) (remove_by_class k f).1
unfolding remove_by_class
remove_by_class-Parted k f =
    let left : contents (remove_by_class k f).0 ≡ sub_remove k (contents f) =
      ap (λ t. t ++ sub_remove k f.queue) (flatten-high_remove k f.high_queue)
      ∙ sym (sub_remove-append k (flatten f.high_queue) f.queue) in
    let gone : (remove_by_class k f).1 ≡ sub_removed k (contents f) =
      ap (λ t. t ++ sub_removed k f.queue) (high_removed-flatten k f.high_queue)
      ∙ sym (sub_removed-append k (flatten f.high_queue) f.queue) in
    rw (left, gone) (sub_remove-Parted k (contents f))
