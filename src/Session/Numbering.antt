-- ===== src/Session/Numbering.antt =====
-- Runs of consecutive sequence numbers, and what the loops of requeue_sent, discard_requeued_up_to
-- and handle_ack do to such a run.
use mathlib.Core.List.{reverse-cons, reverse-reverse}
use msg.Prelude.{
  ℕ, ◌+◌, ◌-◌, ◌^◌, ◌≤◌, ◌<◌, ◌≡◌, refl, sym, ◌∙◌, ap, ◌⊎◌, List, [], ◌∷◌, ◌++◌, reverse,
  append_assoc, zero, suc, arith, dec_lt, length, length-append, drop, drop-nil,
}
use msg.Session.{Msg, inc64, dec64, requeue_loop, discard_loop, trim_sent}

-- The messages carry n + 1, n + 2, ...
abbrev pub Consecutive : ℕ → List Msg → Type 0
Consecutive n [] = Unit {0}
Consecutive n (m ∷ ms) = (m.seq ≡ n + 1) × Consecutive (n + 1) ms

-- No message carries a number.
abbrev pub Fresh : List Msg → Type 0
Fresh [] = Unit {0}
Fresh (m ∷ ms) = (m.seq ≡ 0) × Fresh ms

pub Fresh-append : (xs ys : List Msg) → Fresh xs → Fresh ys → Fresh (xs ++ ys)
Fresh-append [] ys hx hy = hy
Fresh-append (x ∷ xs) ys hx hy = (hx.0, Fresh-append xs ys hx.1 hy)

pub Consecutive-append :
    (n k : ℕ) (xs ys : List Msg)
    → n + length xs ≡ k
    → Consecutive n xs
    → Consecutive k ys
    → Consecutive n (xs ++ ys)
Consecutive-append n k [] ys e hx hy = let e' : n ≡ k = omega arith in rw e' hy
Consecutive-append n k (x ∷ xs) ys e hx hy =
    (hx.0, Consecutive-append (n + 1) k xs ys (omega arith) hx.1 hy)

pub Consecutive-split :
    (n k : ℕ) (xs ys : List Msg)
    → n + length xs ≡ k
    → Consecutive n (xs ++ ys)
    → Consecutive n xs × Consecutive k ys
Consecutive-split n k [] ys e h = let e' : k ≡ n = omega arith in (tt, rw e' h)
Consecutive-split n k (x ∷ xs) ys e h =
    let rest = Consecutive-split (n + 1) k xs ys (omega arith) h.1 in ((h.0, rest.0), rest.1)

requeue_loop_queue : (back rq : List Msg) (n : ℕ) → (requeue_loop back rq n).0 ≡ reverse back ++ rq
unfolding requeue_loop
requeue_loop_queue [] rq n = refl
requeue_loop_queue (m ∷ back) rq n =
    requeue_loop_queue back (m ∷ rq) (dec64 n)
    ∙ rw (reverse-cons m back) (sym (append_assoc (reverse back) (m ∷ []) rq))

pub length-reverse : (ms : List Msg) → length (reverse ms) ≡ length ms
length-reverse [] = refl
length-reverse (m ∷ ms) =
    omega
      (arith, ap length (reverse-cons m ms), length-append (reverse ms) (m ∷ []), length-reverse ms)

requeue_loop_seq :
    (back rq : List Msg) (n : ℕ)
    → length back ≤ n
    → n < 2 ^ 64
    → (requeue_loop back rq n).1 + length back ≡ n
unfolding requeue_loop
requeue_loop_seq [] rq n h b = omega arith
requeue_loop_seq (m ∷ back) rq n h b =
    omega (arith, requeue_loop_seq back (m ∷ rq) (dec64 n) (omega arith) (omega arith))

-- requeue_sent puts the sent messages, oldest first, in front of the queue of highest priority.
pub requeue_loop_lem :
    (ms rq : List Msg) (n : ℕ)
    → length ms ≤ n
    → n < 2 ^ 64
    → ((requeue_loop (reverse ms) rq n).0 ≡ ms ++ rq)
      × ((requeue_loop (reverse ms) rq n).1 + length ms ≡ n)
requeue_loop_lem ms rq n h b = (
  requeue_loop_queue (reverse ms) rq n ∙ ap (λ l. l ++ rq) (reverse-reverse ms),
  omega (
    arith,
    length-reverse ms,
    requeue_loop_seq (reverse ms) rq n (omega (arith, length-reverse ms)) b,
  ),
)

-- The first message is new, or its number lies above `q`.
abbrev pub StopsAt : ℕ → List Msg → Type 0
StopsAt q [] = Unit {0}
StopsAt q (m ∷ ms) = (m.seq ≡ 0) ⊎ (q < m.seq)

discard_loop_stops : (q n : ℕ) (ms : List Msg) → StopsAt q ms → discard_loop q ms n ≡ (ms, n)
unfolding discard_loop
discard_loop_stops q n [] h = refl
discard_loop_stops q n (m ∷ ms) h = ground arith

-- A run that ends at `q` is dropped whole, and out_seq moves up with it.
pub discard_loop_lem :
    (q n : ℕ) (ds ms : List Msg)
    → Consecutive n ds
    → n + length ds ≡ q
    → q < 2 ^ 64
    → StopsAt q ms
    → discard_loop q (ds ++ ms) n ≡ (ms, q)
unfolding discard_loop
discard_loop_lem q n [] ms c e b h =
    let e' : n ≡ q = omega arith in rw e' (discard_loop_stops q q ms h)
discard_loop_lem q n (d ∷ ds) ms c e b h =
    let e' : inc64 n ≡ n + 1 = omega arith in
    ground (arith, e', discard_loop_lem q (n + 1) ds ms c.1 (omega arith) b h)

-- An acknowledgement of `q` takes exactly the messages up to `q` off a run.
pub trim_sent_lem : (q n : ℕ) (ms : List Msg) → Consecutive n ms → trim_sent q ms ≡ drop (q - n) ms
unfolding trim_sent
trim_sent_lem q n [] c = sym (drop-nil (q - n))
trim_sent_lem q n (m ∷ ms) c = elim (dec_lt n q) [
  | yes h ↦
      let e : q - n ≡ suc (q - (n + 1)) = omega arith in
      rw e (ground (arith, trim_sent_lem q (n + 1) ms c.1))
  | no h ↦ let e : q - n ≡ 0 = omega arith in rw e (ground arith)
]

pub Consecutive-drop :
    (k n : ℕ) (ms : List Msg) → k ≤ length ms → Consecutive n ms → Consecutive (n + k) (drop k ms)
Consecutive-drop zero n ms h c = let e : n + 0 ≡ n = omega arith in rw e c
Consecutive-drop (suc k) n [] h c = elim h [ ]
Consecutive-drop (suc k) n (m ∷ ms) h c =
    let e : n + suc k ≡ n + 1 + k = omega arith in
    rw e (Consecutive-drop k (n + 1) ms (omega arith) c.1)
