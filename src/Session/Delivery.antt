-- ===== src/Session/Delivery.antt =====
-- New messages, receipt and acknowledgement keep the invariant of a link.
use msg.Prelude.{
  ℕ, ◌+◌, ◌-◌, ◌≤◌, ◌≡◌, ap, inl, inr, true, false, List, [], ◌∷◌, ◌++◌, append_assoc, arith,
  length, length-append, drop, drop-append, length-drop, leb,
}
use msg.Session.{Msg, prio_highest, enqueue, receive, handle_ack, trim_sent}
use msg.Session.Numbering.{
  Consecutive, Consecutive-append, Consecutive-split, Consecutive-drop, trim_sent_lem,
}
use msg.Session.Queued.{tally, tally-append, Holds-enqueue}
use msg.Session.Link.{Link, submit, deliver, acknowledge}
use msg.Session.Invariant.{Inv, sent_run}

pub submit-Inv :
    (l : Link) (m : Msg) → m.seq ≡ 0 → m.priority ≤ prio_highest → Inv l → Inv (submit l m)
unfolding submit enqueue
submit-Inv l m e p v = elim v.place [
  | inl (c, s, o, h) ↦
      let (ns', low', h', new', lower', w) =
        Holds-enqueue l.sender.out_q run ns low m h new lower e p in
      record {
        base = base;
        kept = kept;
        run = run;
        ns = ns';
        low = low';
        lossless = lossless;
        numbers = numbers;
        reached = reached;
        bounded = bounded;
        new = new';
        lower = lower';
        place = inl (c, s, o, h');
        in_order = in_order;
        complete = complete;
        weight = λ f. omega (arith, w f, weight f, tally-append f l.submitted (m ∷ []));
      }
  | inr (c, s, o, h) ↦
      let (ns', low', h', new', lower', w) =
        Holds-enqueue l.sender.out_q (kept ++ (l.channel ++ run)) ns low m h new lower e p in
      record {
        base = base;
        kept = kept;
        run = run;
        ns = ns';
        low = low';
        lossless = lossless;
        numbers = numbers;
        reached = reached;
        bounded = bounded;
        new = new';
        lower = lower';
        place = inr (c, s, o, h');
        in_order = in_order;
        complete = complete;
        weight = λ f. omega (arith, w f, weight f, tally-append f l.submitted (m ∷ []));
      }
]
  where
    open v use {base, kept, run, ns, low, lossless, numbers, reached, bounded, new, lower}
    open v use {in_order, complete, weight}

-- The receiver accepts each frame: its number is the next one.
pub deliver_cases : (l : Link) (channel : List Msg) → l.channel ≡ channel → Inv l → Inv (deliver l)
unfolding deliver receive
deliver_cases l [] e v = rw (e, deliver) v
deliver_cases l (m ∷ ms) e v =
    let split = Consecutive-split base l.receiver.in_seq kept (l.channel ++ run) reached numbers in
    let rest : Consecutive l.receiver.in_seq (m ∷ (ms ++ run)) = rw e at split.1 in
    let not_old : leb m.seq l.receiver.in_seq ≡ false = ground (arith, rest.0) in
    let regroup = λ (xs : List Msg). append_assoc kept (m ∷ []) xs in
    rw (e, deliver, not_old)
      (record {
        base = base;
        kept = kept ++ (m ∷ []);
        run = run;
        ns = ns;
        low = low;
        lossless = lossless;
        numbers = rw (regroup (ms ++ run)) (rw e at numbers);
        reached = omega (arith, rest.0, length-append kept (m ∷ []));
        bounded = omega (arith, rest.0, ap length e);
        new = new;
        lower = lower;
        place = elim place [
          | inl (c, s, o, h) ↦
              inl (c, rw (regroup ms) (rw e at s), omega (arith, rest.0, ap length e), h)
          | inr (c, s, o, h) ↦ inr (c, s, o, rw (regroup (ms ++ run)) (rw e at h))
        ];
        in_order =
            Consecutive-append 0 l.receiver.in_seq l.delivered (m ∷ []) (omega arith) in_order
              (rest.0, tt);
        complete = omega (arith, rest.0, length-append l.delivered (m ∷ []));
        weight = λ f. omega (arith, weight f, ap (tally f) e, tally-append f l.delivered (m ∷ []));
      })
  where
    open v use {base, kept, run, ns, low, lossless, numbers, reached, bounded, new, lower}
    open v use {in_order, complete, weight, place}

pub acknowledge-Inv :
    (l : Link) (q : ℕ) → l.connected ≡ true → q ≤ l.receiver.in_seq → Inv l → Inv (acknowledge l q)
unfolding acknowledge handle_ack
acknowledge-Inv l q up h v = record {
  base = base + k;
  kept = drop k kept;
  run = run;
  ns = ns;
  low = low;
  lossless = lossless;
  numbers = rw (← drop-append k kept (l.channel ++ run) (omega arith)) (
      Consecutive-drop k base (kept ++ (l.channel ++ run))
        (omega (arith, length-append kept (l.channel ++ run))) numbers);
  reached = omega (arith, length-drop k kept);
  bounded = bounded;
  new = new;
  lower = lower;
  place = elim place [
    | inl (c, s, o, h) ↦ inl (c, trimmed s, o, h)
    | inr (c, s, o, h) ↦ absurd (cc (c, up))
  ];
  in_order = in_order;
  complete = complete;
  weight = weight;
}
  where
    open v use {base, kept, run, ns, low, lossless, numbers, reached, bounded, new, lower}
    open v use {in_order, complete, weight, place}

    k : ℕ
    k = q - base

    trimmed :
        l.sender.sent ≡ kept ++ l.channel → trim_sent q l.sender.sent ≡ drop k kept ++ l.channel
    trimmed s =
        rw (s, trim_sent_lem q base (kept ++ l.channel) (sent_run l v))
          (drop-append k kept l.channel (omega arith))
