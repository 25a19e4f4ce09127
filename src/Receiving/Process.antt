-- ===== src/Receiving/Process.antt =====
-- What do_process makes of a socket is what the states make of the bytes that come
-- (src/async/AsyncConnection.cc).
use msg.Prelude.{
  ℕ, zero, suc, ◌+◌, ◌%◌, ◌^◌, ◌≤◌, ◌<◌, ◌≡◌, refl, sym, ap, ◌∙◌, subst, ◌⊎◌, inl, inr, List, [],
  ◌∷◌, length, take, drop, ltb, ◌==◌, arith, by_if, length-append, take-append_all, drop-append_all,
}
use msg.Frame.{Message, Codec}
use msg.ReadBuffer.{SysRead, Reader, Outcome, finished, remaining, failed, asserts}
use msg.ReadBuffer.Loops.{unread, Result}
use msg.ReadBuffer.Stream.{Between, read_until-Result}
use msg.Receiving.{
  Receiver, Memory, Verdict, goes_on, passes, drops, fails, closes, rests, connects, no_memory,
  message_size,
}
use msg.Receiving.Reads.{next_len, verdict, Reads, stops, moves, passes_on, drops_old}
use msg.Receiving.Loop.{
  Ending, pending, paused, read_error, assertion, no_fuel, left_by, Run, with_message, read_item,
  on_verdict, on_item, do_process,
}

-- The reader before an item of `n` bytes, of which some may be there.
pub record Ready (max n : ℕ) (rd : Reader) : Type 0 where
  pub partial : (length rd.filled ≡ 0) ⊎ (length rd.filled < n)
  pub within : rd.recv_start ≤ length rd.recv_buf
  pub size : length rd.recv_buf ≤ max
  pub apart : (length rd.filled ≡ 0) ⊎ (rd.recv_start ≡ length rd.recv_buf)

-- The reader between two items.
pub record Idle (max : ℕ) (rd : Reader) : Type 0 where
  pub empty : length rd.filled ≡ 0
  pub within : rd.recv_start ≤ length rd.recv_buf
  pub size : length rd.recv_buf ≤ max

pub idle_ready : (max n : ℕ) (rd : Reader) → Idle max rd → Ready max n rd
idle_ready max n rd i = record {
  partial = inl i.empty;
  within = i.within;
  size = i.size;
  apart = inl i.empty;
}

module _ (codec : Codec) (memory : Memory) (sys : SysRead) where
  open sys use {Socket}

  -- What the read of a state leaves of the bytes `bs` that were to come.
  abbrev pub Item : ℕ → ℕ → List ℕ → Outcome × Reader × Socket → Type 0
  Item max n bs (finished xs, rd, s) =
      (xs ≡ take n bs) × (unread sys rd s ≡ drop n bs) × (n ≤ length bs) × Idle max rd
  Item max n bs (remaining k, rd, s) = (unread sys rd s ≡ bs) × Ready max n rd
  Item max n bs (failed, rd, s) = unread sys rd s ≡ bs
  Item max n bs (asserts, rd, s) = ⊥

  of_result :
      (max n : ℕ) (bs : List ℕ) (x : Outcome × Reader × Socket)
      → Result sys max n bs x
      → Item max n bs x
  of_result max n bs (finished xs, rd, s) (e, len, empty, within, size) = (
    sym (ap (λ t. take n t) (sym e) ∙ take-append_all n xs (unread sys rd s) len),
    sym (ap (λ t. drop n t) (sym e) ∙ drop-append_all n xs (unread sys rd s) len),
    omega (arith, len, ap length e, length-append xs (unread sys rd s)),
    record { empty = empty; within = within; size = size },
  )
  of_result max n bs (remaining k, rd, s) (e, len, pos, small, start, empty) = (
    e,
    record {
      partial = inr (omega arith);
      within = omega arith;
      size = omega arith;
      apart = inr (omega arith);
    },
  )
  of_result max n bs (failed, rd, s) e = e
  of_result max n bs (asserts, rd, s) e = e

  pub read_item-Item :
      (max : ℕ) (r : Receiver) (rd : Reader) (s : Socket)
      → Ready max (next_len codec memory r) rd
      → Item max (next_len codec memory r) (unread sys rd s) (read_item codec memory sys max r rd s)
  unfolding read_item
  read_item-Item max r rd s y =
      let n = next_len codec memory r in
      by_if (Item max n (unread sys rd s)) (n == 0)
        (λ z. nothing_read n (unread sys rd s) (ground arith) (idle y (ground arith)))
        λ z. of_result max n _ _ (read_until-Result sys max n rd s (between n y (ground arith)))
    where
      idle : {n : ℕ} → Ready max n rd → n ≡ 0 → Idle max rd
      idle y z = record {
        empty = elim y.partial [ inl e ↦ e | inr h ↦ absurd (omega arith) ];
        within = y.within;
        size = y.size;
      }

      nothing_read :
          (n : ℕ) (bs : List ℕ)
          → n ≡ 0
          → Idle max rd
          → ([] ≡ take n bs) × (bs ≡ drop n bs) × (n ≤ length bs) × Idle max rd
      nothing_read zero bs z i = (refl, refl, omega arith, i)
      nothing_read (suc n) bs z i = absurd (omega arith)

      between : (n : ℕ) → Ready max n rd → 0 < n → Between max n rd
      between n y p = record {
        wanted = elim y.partial [ inl e ↦ omega arith | inr h ↦ h ];
        within = y.within;
        size = y.size;
        apart = y.apart;
      }

  -- How far the states get with the bytes `bs`, at the end of a call: `t` is the receiver, `cs` what is
  -- still to come, `ms` what was passed on.
  abbrev pub Follows :
      ℕ → Receiver → List ℕ → Ending → Receiver → List ℕ → List Message → Reader → Type 0
  Follows max r bs pending t cs ms rd =
      (Reads codec memory r bs t cs ms) × Ready max (next_len codec memory t) rd
  Follows max r bs paused t cs ms rd =
      (Reads codec memory r bs t cs ms) × Ready max (next_len codec memory t) rd
  Follows max r bs no_fuel t cs ms rd =
      (Reads codec memory r bs t cs ms) × Ready max (next_len codec memory t) rd
  Follows max r bs read_error t cs ms rd = Reads codec memory r bs t cs ms
  Follows max r bs assertion t cs ms rd = ⊥
  Follows max r bs (left_by v) t cs ms rd =
      (us : List ℕ) × (Reads codec memory r bs t us ms)
      × (next_len codec memory t ≤ length us)
      × (verdict codec memory t us ≡ v)
      × (cs ≡ drop (next_len codec memory t) us)

  abbrev pub Through : ℕ → Receiver → List ℕ → Run codec memory sys → Type 0
  Through max r bs run =
      Follows max r bs run.ending run.receiver (unread sys run.reader run.socket) run.passed
        run.reader

  -- A call that follows from a later receiver follows from one before it.
  earlier :
      (max : ℕ) (r s : Receiver) (bs us : List ℕ) (g : List Message → List Message)
      → ((t : Receiver) (cs : List ℕ) (ms : List Message)
          → Reads codec memory s us t cs ms
          → Reads codec memory r bs t cs (g ms))
      → (e : Ending) (t : Receiver) (cs : List ℕ) (ms : List Message) (rd : Reader)
      → Follows max s us e t cs ms rd
      → Follows max r bs e t cs (g ms) rd
  earlier max r s bs us g f pending t cs ms rd (l, y) = (f t cs ms l, y)
  earlier max r s bs us g f paused t cs ms rd (l, y) = (f t cs ms l, y)
  earlier max r s bs us g f no_fuel t cs ms rd (l, y) = (f t cs ms l, y)
  earlier max r s bs us g f read_error t cs ms rd l = f t cs ms l
  earlier max r s bs us g f assertion t cs ms rd l = l
  earlier max r s bs us g f (left_by v) t cs ms rd (vs, l, w, e, d) = (vs, f t vs ms l, w, e, d)

  -- The rest of a round, after the read of `n` bytes of `bs`.
  on_verdict-Through :
      (max limit total : ℕ) (r : Receiver) (bs : List ℕ) (rd : Reader) (s : Socket)
      (next next_message : Receiver → Run codec memory sys) (v : Verdict)
      → verdict codec memory r bs ≡ v
      → next_len codec memory r ≤ length bs
      → unread sys rd s ≡ drop (next_len codec memory r) bs
      → Idle max rd
      → ((t : Receiver) → Through max t (unread sys rd s) (next t))
      → ((t : Receiver) → Through max t (unread sys rd s) (next_message t))
      → Through max r bs (on_verdict codec memory sys limit total r rd s next next_message v)
  unfolding on_verdict
  on_verdict-Through max limit total r bs rd s next next_message (goes_on t) e n d i f g =
      earlier max r t bs _ (λ ms. ms)
        (λ u cs ms l. moves n e (subst (λ us. Reads codec memory t us u cs ms) d l)) _ _ _ _ _ (f t)
  on_verdict-Through max limit total r bs rd s next next_message (drops t m) e n d i f g =
      earlier max r t bs _ (λ ms. ms)
        (λ u cs ms l. drops_old n e (subst (λ us. Reads codec memory t us u cs ms) d l)) _ _ _ _ _
        (g t)
  on_verdict-Through max limit total r bs rd s next next_message (passes t m) e n d i f g =
      by_if (λ run. Through max r bs (with_message codec memory sys m run)) (ltb limit total)
        (λ h. (
          passes_on n e (subst (λ us. Reads codec memory t us t (unread sys rd s) []) d stops),
          idle_ready max (next_len codec memory t) rd i,
        ))
        λ h.
          earlier max r t bs _ (λ ms. m ∷ ms)
            (λ u cs ms l. passes_on n e (subst (λ us. Reads codec memory t us u cs ms) d l)) _ _ _ _
            _ (g t)
  on_verdict-Through max limit total r bs rd s next next_message (fails t) e n d i f g =
      (bs, stops, n, e, d)
  on_verdict-Through max limit total r bs rd s next next_message (closes t) e n d i f g =
      (bs, stops, n, e, d)
  on_verdict-Through max limit total r bs rd s next next_message rests e n d i f g =
      (bs, stops, n, e, d)
  on_verdict-Through max limit total r bs rd s next next_message connects e n d i f g =
      (bs, stops, n, e, d)
  on_verdict-Through max limit total r bs rd s next next_message no_memory e n d i f g =
      (bs, stops, n, e, d)

  on_item-Through :
      (max : ℕ) (r : Receiver) (bs : List ℕ) (rd : Reader) (s : Socket)
      (handle : List ℕ → Run codec memory sys) (o : Outcome)
      → Item max (next_len codec memory r) bs (o, rd, s)
      → (next_len codec memory r ≤ length bs
          → unread sys rd s ≡ drop (next_len codec memory r) bs
          → Idle max rd
          → Through max r bs (handle (take (next_len codec memory r) bs)))
      → Through max r bs (on_item codec memory sys r rd s handle o)
  on_item-Through max r bs rd s handle (finished xs) (e, d, n, i) f =
      subst (λ ys. Through max r bs (handle ys)) (sym e) (f n d i)
  on_item-Through max r bs rd s handle (remaining k) (e, y) f =
      (subst (λ us. Reads codec memory r bs r us []) (sym e) stops, y)
  on_item-Through max r bs rd s handle failed e f =
      subst (λ us. Reads codec memory r bs r us []) (sym e) stops
  on_item-Through max r bs rd s handle asserts e f = e

  -- One call of do_process, with the bytes that are to come from the buffer and the socket: what is
  -- passed on, the receiver it leaves and what is still to come are those of the states on these bytes,
  -- however the socket cuts them. Nothing is lost where bytes are missing, where it pauses after a
  -- message and where read_until fails; in the first two cases the buffer is ready for the next call
  -- too. Otherwise it ends at what a state says of the next bytes. No assertion of read_until fails.
  -- The condition is that the buffer is ready for the item at which the call begins.
  pub do_process-Through :
      (fuel max limit total : ℕ) (r : Receiver) (rd : Reader) (s : Socket)
      → Ready max (next_len codec memory r) rd
      → Through max r (unread sys rd s) (do_process codec memory sys fuel max limit total r rd s)
  unfolding do_process
  do_process-Through zero max limit total r rd s y = (stops, y)
  do_process-Through (suc fuel) max limit total r rd s y =
      let (o, rd', s') = read_item codec memory sys max r rd s in
      on_item-Through max r (unread sys rd s) rd' s' _ o (read_item-Item max r rd s y) λ n d i.
        on_verdict-Through max limit ((total + message_size r.header) % 2 ^ 32) r (unread sys rd s)
          rd' s' _ _ _ refl n d i
          (λ t. do_process-Through fuel max limit total t rd' s' (idle_ready max _ rd' i))
          (λ t.
            do_process-Through fuel max limit ((total + message_size r.header) % 2 ^ 32) t rd' s'
              (idle_ready max _ rd' i))
