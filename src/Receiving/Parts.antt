-- ===== src/Receiving/Parts.antt =====
-- The states of a message's receipt, on the bytes of its parts (src/async/AsyncConnection.cc).
use msg.Prelude.{
  ℕ, ◌-◌, ◌≤◌, ◌<◌, ◌≡◌, refl, sym, ap, subst, ◌∙◌, true, false, some, List, [], ◌∷◌, ◌++◌, length,
  take, drop, min, leb, ◌==◌, arith, Bool-cases, inl, inr, append_assoc, append-nil, leb→le,
  length-append, length-take, take-append-drop, length-drop, take-append_all, drop-append_all,
}
use msg.Connection.{open_message_read_data, open_message_read_footer}
use msg.Frame.{Header, Message, Codec, sum}
use msg.Receiving.{Receiver, Memory, goes_on, wants, advance, in_state, read_data, advance_blp}
use msg.Receiving.Reads.{next_len, Reads, moves}

abbrev pub AllPositive : List ℕ → Type 0
AllPositive [] = Unit {0}
AllPositive (n ∷ ns) = (0 < n) × AllPositive ns

-- What is promised of the memory: no piece is empty, and the allocator gives enough.
pub record Enough (memory : Memory) : Type 0 where
  pub posted_pieces :
      (tid : ℕ) (buffer : List ℕ) → memory.rx_buffers tid ≡ some buffer → AllPositive buffer
  pub pieces : (h : Header) → AllPositive (memory.allocate_msg_data h)
  pub size : (h : Header) → h.data_len ≤ sum (memory.allocate_msg_data h)

-- The receiver in the loop for the data, with what is read, the memory and what is left.
abbrev pub collecting : Receiver → List ℕ → List ℕ → ℕ → Receiver
collecting r acc blp left = record r {
  conn = record r.conn { state = open_message_read_data };
  data_bl = acc;
  data_blp = blp;
  msg_left = left;
}

module _ (codec : Codec) (memory : Memory) where
  module _ (rest : List ℕ) (ms : List Message) (Q : Receiver → Type 0) where
    -- From here the receiver passes on `ms` and stands before `rest`, and then has the property.
    abbrev pub Leads : Receiver → List ℕ → Type 0
    Leads r bs = (t : Receiver) × (Reads codec memory r bs t rest ms) × (Q t)

    -- A state that reads just `xs`.
    pub state_moves :
        (r s : Receiver) (xs ys : List ℕ)
        → length xs ≡ next_len codec memory r
        → advance codec memory r.conn.state r xs ≡ goes_on s
        → Leads s ys
        → Leads r (xs ++ ys)
    state_moves r s xs ys n e (t, l, q) =
        let k = next_len codec memory r in
        let front : take k (xs ++ ys) ≡ xs = take-append_all k xs ys n in
        let back : drop k (xs ++ ys) ≡ ys = drop-append_all k xs ys n in
        (
          t,
          moves (omega (arith, length-append xs ys, n))
              (ap (λ bs. advance codec memory r.conn.state r bs) front ∙ e)
              (subst (λ bs. Reads codec memory s bs t rest ms) (sym back) l),
          q,
        )

    -- The loop for the data ends.
    pub all_read :
        (r : Receiver) (acc blp ys : List ℕ)
        → Leads (in_state open_message_read_footer (collecting r acc blp 0)) ys
        → Leads (collecting r acc blp 0) ys
    unfolding wants advance read_data
    all_read r acc blp ys l = state_moves (collecting r acc blp 0) _ [] ys (omega arith) refl l

    -- One round of it.
    round_read :
        (r : Receiver) (acc : List ℕ) (p : ℕ) (ps : List ℕ) (left : ℕ) (xs ys : List ℕ)
        → length xs ≡ min p left
        → 0 < left
        → 0 < p
        → Leads
            (collecting r (acc ++ xs) (advance_blp (p ∷ ps) (min p left)) (left - min p left))
            ys
        → Leads (collecting r acc (p ∷ ps) left) (xs ++ ys)
    unfolding wants advance read_data
    round_read r acc p ps left xs ys e pos full l =
        let some_left : (left == 0) ≡ false = ground arith in
        let some_room : (p == 0) ≡ false = ground arith in
        state_moves (collecting r acc (p ∷ ps) left) _ xs ys e (rw (some_left, some_room) refl) l

    piece_read :
        (r : Receiver) (acc : List ℕ) (p : ℕ) (ps xs dat ys : List ℕ)
        → 0 < p
        → length xs ≡ p
        → Leads (collecting r (acc ++ xs) ps (length dat)) (dat ++ ys)
        → Leads (collecting r acc (p ∷ ps) (length (xs ++ dat))) ((xs ++ dat) ++ ys)
    unfolding advance_blp
    piece_read r acc p ps xs dat ys pos e l =
        let left = length (xs ++ dat) in
        let least : p ≡ min p left = omega (arith, length-append xs dat, e) in
        let blp : ps ≡ advance_blp (p ∷ ps) (min p left) =
          let same : (p == min p left) ≡ true = ground arith in rw same refl in
        let less : length dat ≡ left - min p left = omega (arith, length-append xs dat, e, least) in
        subst (λ bs. Leads (collecting r acc (p ∷ ps) left) bs) (sym (append_assoc xs dat ys))
          (round_read r acc p ps left xs (dat ++ ys) (e ∙ least)
            (omega (arith, length-append xs dat, e)) pos
            (subst (λ q. Leads (collecting r (acc ++ xs) q (left - min p left)) (dat ++ ys)) blp
              (subst (λ q. Leads (collecting r (acc ++ xs) ps q) (dat ++ ys)) less l)))

    last_piece_read :
        (r : Receiver) (acc : List ℕ) (p : ℕ) (ps dat ys : List ℕ)
        → 0 < length dat
        → length dat < p
        → ((blp' : List ℕ)
            → Leads (in_state open_message_read_footer (collecting r (acc ++ dat) blp' 0)) ys)
        → Leads (collecting r acc (p ∷ ps) (length dat)) (dat ++ ys)
    last_piece_read r acc p ps dat ys pos e l =
        let blp = advance_blp (p ∷ ps) (min p (length dat)) in
        let none_left : 0 ≡ length dat - min p (length dat) = omega arith in
        round_read r acc p ps (length dat) dat ys (omega arith) pos (omega arith) (
          subst (λ q. Leads (collecting r (acc ++ dat) blp q) ys) none_left
            (all_read r (acc ++ dat) blp ys (l blp)))

    -- The loop for the data reads all of it, when the memory is enough.
    pub data_reads :
        (r : Receiver) (acc blp dat ys : List ℕ)
        → AllPositive blp
        → length dat ≤ sum blp
        → ((blp' : List ℕ)
            → Leads (in_state open_message_read_footer (collecting r (acc ++ dat) blp' 0)) ys)
        → Leads (collecting r acc blp (length dat)) (dat ++ ys)
    unfolding advance_blp
    data_reads r acc blp [] ys p e l = all_read r acc blp ys (
        subst (λ a. Leads (in_state open_message_read_footer (collecting r a blp 0)) ys)
          (append-nil acc) (l blp))
    data_reads r acc [] (d ∷ dat) ys p e l = absurd (omega arith)
    data_reads r acc (n ∷ ps) (d ∷ dat) ys (pos, p) e l = elim (Bool-cases (leb n (length all))) [
      | inl h ↦
          let cut = take-append-drop n all in
          subst (λ bs. Leads (collecting r acc (n ∷ ps) (length bs)) (bs ++ ys)) cut
            (piece_read r acc n ps (take n all) (drop n all) ys pos
              (omega (arith, length-take n all, leb→le n (length all) h))
              (data_reads r (acc ++ take n all) ps (drop n all) ys p
                (omega (arith, length-drop n all))
                λ blp'.
                  subst (λ a. Leads (in_state open_message_read_footer (collecting r a blp' 0)) ys)
                    (sym (append_assoc acc (take n all) (drop n all) ∙ ap (λ t. acc ++ t) cut))
                    (l blp')))
      | inr h ↦ last_piece_read r acc n ps all ys (omega arith) (ground arith) l
    ]
      where
        all : List ℕ
        all = d ∷ dat
