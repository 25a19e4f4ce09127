-- ===== src/Session/Sending.antt =====
-- Sending keeps the invariant of a link, and so does every step.
use msg.Prelude.{
  ℕ, ◌+◌, ◌^◌, ◌<◌, ◌≡◌, refl, ap, ◌∙◌, ◌⊎◌, inl, inr, true, false, some, none, List, [], ◌∷◌, ◌++◌,
  append_assoc, arith, length, length-append,
}
use msg.Session.{Session, Msg, OutQueue, inc64, next_outgoing, send, pump}
use msg.Session.Numbering.{Consecutive, Consecutive-append, Consecutive-split}
use msg.Session.Queued.{tally, tally-append}
use msg.Session.Next.{Holds-Next}
use msg.Session.Link.{
  Link, transmit, Step, submits, transmits, delivers, acknowledges, breaks, resumes,
}
use msg.Session.Invariant.{Inv}
use msg.Session.Delivery.{submit-Inv, deliver_cases, acknowledge-Inv}
use msg.Session.Recovery.{break_off-Inv, resume-Inv}

pump-none :
    (s : Session) (q : OutQueue)
    → next_outgoing s.out_q ≡ (none, q)
    → pump s ≡ (record s { out_q = q }, none)
unfolding pump
pump-none s q e = ground arith

pump-some :
    (s : Session) (m : Msg) (q : OutQueue)
    → next_outgoing s.out_q ≡ (some m, q)
    → s.lossy ≡ false
    → s.out_seq + 1 < 2 ^ 32
    → (let m' : Msg = record m { seq = s.out_seq + 1 } in
        pump s
        ≡ (record s { out_q = q; out_seq = s.out_seq + 1; sent = s.sent ++ (m' ∷ []) }, some m'))
unfolding pump send
pump-some s m q e l b = let n : inc64 s.out_seq ≡ s.out_seq + 1 = omega arith in ground (arith, n)

numbers_sent :
    (base k o : ℕ) (kept channel run : List Msg) (m : Msg)
    → Consecutive base kept
    → base + length kept ≡ k
    → Consecutive k channel
    → k + length channel ≡ o
    → m.seq ≡ o + 1
    → Consecutive (o + 1) run
    → Consecutive base (kept ++ ((channel ++ (m ∷ [])) ++ run))
numbers_sent base k o kept channel run m ck ek cc ec em cr =
    Consecutive-append base k kept _ ek ck
      (rw (append_assoc channel (m ∷ []) run) (Consecutive-append k o channel _ ec cc (em, cr)))

transmit-Inv :
    (l : Link) → l.connected ≡ true → l.sender.out_seq + 1 < 2 ^ 32 → Inv l → Inv (transmit l)
unfolding transmit
transmit-Inv l up b v = elim v.place [
  | inr (c, s, o, h) ↦ absurd (cc (c, up))
  | inl (c, s, o, h) ↦ elim (Holds-Next l.sender.out_q run ns low h new lower) [
    | inl (e, r, w) ↦ rw (pump-none l.sender [] e) (record {
      base = base;
      kept = kept;
      run = [];
      ns = [];
      low = [];
      lossless = lossless;
      numbers = rw r at numbers;
      reached = reached;
      bounded = omega arith;
      new = tt;
      lower = tt;
      place = inl (c, s, o, inr (refl, refl, refl));
      in_order = in_order;
      complete = complete;
      weight = λ f. omega (arith, weight f, w f, ap (tally f) r);
    })
    | inr (m, q, run', ns', low', e, h', new', lower', which, w) ↦
        rw (pump-some l.sender m q e lossless b) (record {
          base = base;
          kept = kept;
          run = run';
          ns = ns';
          low = low';
          lossless = lossless;
          numbers =
              numbers_sent base l.receiver.in_seq l.sender.out_seq kept l.channel run' _ split.0
                reached (parts o).0 (omega arith) refl (tail run' m which (parts o).1);
          reached = reached;
          bounded = omega (
            arith,
            size run' m which o,
            length-append l.channel (record m { seq = l.sender.out_seq + 1 } ∷ []),
          );
          new = new';
          lower = lower';
          place = inl (
            c,
            ap (λ xs. xs ++ (record m { seq = l.sender.out_seq + 1 } ∷ [])) s
                ∙ append_assoc kept l.channel _,
            omega (arith, length-append l.channel (record m { seq = l.sender.out_seq + 1 } ∷ [])),
            h',
          );
          in_order = in_order;
          complete = complete;
          weight = λ f. omega (
            arith,
            weight f,
            w f,
            tally-append f l.channel (record m { seq = l.sender.out_seq + 1 } ∷ []),
          );
        })
  ]
]
  where
    open v use {base, kept, run, ns, low, lossless, numbers, reached, bounded, new, lower}
    open v use {in_order, complete, weight}

    split : Consecutive base kept × Consecutive l.receiver.in_seq (l.channel ++ run)
    split = Consecutive-split base l.receiver.in_seq kept (l.channel ++ run) reached numbers

    parts :
        l.sender.out_seq ≡ l.receiver.in_seq + length l.channel
        → Consecutive l.receiver.in_seq l.channel × Consecutive l.sender.out_seq run
    parts o =
        Consecutive-split l.receiver.in_seq l.sender.out_seq l.channel run (omega arith) split.1

    tail :
        (rs : List Msg) (m : Msg)
        → (run ≡ m ∷ rs) ⊎ ((run ≡ []) × (rs ≡ []))
        → Consecutive l.sender.out_seq run
        → Consecutive (l.sender.out_seq + 1) rs
    tail rs m (inl e) c = (rw e at c).1
    tail rs m (inr (e, r)) c = rw r tt

    size :
        (rs : List Msg) (m : Msg)
        → (run ≡ m ∷ rs) ⊎ ((run ≡ []) × (rs ≡ []))
        → l.sender.out_seq ≡ l.receiver.in_seq + length l.channel
        → l.receiver.in_seq + (length l.channel + 1 + length rs) < 2 ^ 32
    size rs m (inl e) o = omega (arith, ap length e)
    size rs m (inr (e, r)) o = omega (arith, ap length r)

pub Step-Inv : {l k : Link} → Step l k → Inv l → Inv k
Step-Inv {l} (submits m new p) v = submit-Inv l m new p v
Step-Inv {l} (transmits up b) v = transmit-Inv l up b v
Step-Inv {l} delivers v = deliver_cases l l.channel refl v
Step-Inv {l} (acknowledges q up h) v = acknowledge-Inv l q up h v
Step-Inv {l} (breaks up) v = break_off-Inv l up v
Step-Inv {l} (resumes down) v = resume-Inv l down v
