-- ===== src/Session/Recovery.antt =====
-- A fault and the resumption keep the invariant of a link.
use msg.Prelude.{
  ◌≡◌, refl, ap, subst, ◌∙◌, inl, inr, true, false, [], ◌++◌, append_assoc, arith, length,
  length-append,
}
use msg.Session.{requeue_sent}
use msg.Session.Numbering.{Consecutive-split}
use msg.Session.Queued.{tally-append, Holds}
use msg.Session.Requeue.{requeue_sent_lem, discard_requeued_up_to_lem}
use msg.Session.Link.{Link, break_off, resume}
use msg.Session.Invariant.{Inv}

pub break_off-Inv : (l : Link) → l.connected ≡ true → Inv l → Inv (break_off l)
unfolding break_off
break_off-Inv l up v = elim v.place [
  | inr (c, s, o, h) ↦ absurd (cc (c, up))
  | inl (c, s, o, h) ↦
      let sizes = ap length s ∙ length-append kept l.channel in
      let q = requeue_sent_lem l.sender run ns low base lower h (omega arith) (omega arith) in
      record {
        base = base;
        kept = kept;
        run = run;
        ns = ns;
        low = low;
        lossless = q.lossy ∙ lossless;
        numbers = numbers;
        reached = reached;
        bounded = bounded;
        new = new;
        lower = lower;
        place = inr (
          refl,
          q.none_sent,
          q.seq,
          subst (λ xs. Holds (requeue_sent l.sender).out_q xs ns low)
              (ap (λ xs. xs ++ run) s ∙ append_assoc kept l.channel run) q.queue,
        );
        in_order = in_order;
        complete = complete;
        weight = weight;
      }
]
  where
    open v use {base, kept, run, ns, low, lossless, numbers, reached, bounded, new, lower}
    open v use {in_order, complete, weight}

pub resume-Inv : (l : Link) → l.connected ≡ false → Inv l → Inv (resume l)
unfolding resume
resume-Inv l down v = elim v.place [
  | inl (c, s, o, h) ↦ absurd (cc (c, down))
  | inr (c, s, o, h) ↦
      let q =
        discard_requeued_up_to_lem l.sender kept (l.channel ++ run) ns low l.receiver.in_seq lower
          new (omega arith) (rw o numbers) (rw o reached) h s in
      record {
        base = l.receiver.in_seq;
        kept = [];
        run = l.channel ++ run;
        ns = ns;
        low = low;
        lossless = q.lossy ∙ lossless;
        numbers =
            (Consecutive-split base l.receiver.in_seq kept (l.channel ++ run) reached numbers).1;
        reached = omega arith;
        bounded = omega (arith, length-append l.channel run);
        new = new;
        lower = lower;
        place = inl (refl, q.none_sent, omega (arith, q.seq), q.queue);
        in_order = in_order;
        complete = complete;
        weight = λ f. omega (arith, weight f, tally-append f l.channel run);
      }
]
  where
    open v use {base, kept, run, ns, low, lossless, numbers, reached, bounded, new, lower}
    open v use {in_order, complete, weight}
