-- ===== src/Buffers/Memory/Fresh.antt =====
-- A new append_buffer for one of two lists, and steps of an append (src/buffer.cc).
use msg.Prelude.{
  ℕ, ◌+◌, ◌-◌, ◌*◌, ◌/◌, ◌≤◌, ◌<◌, ◌≡◌, refl, sym, ap, ◌∙◌, arith, true, List, [], ◌∷◌, ◌++◌,
  length, Option, none, some, append-nil, append_assoc, length-append,
}
use msg.Buffers.{
  Raw, Heap, Ptr, BufferList, Returned, returns, end_of_buffer, asserts, undefined, wrap32,
}
use msg.Buffers.View.{no_raw, content_of, bytes, AllWithin}
use msg.Buffers.Memory.{page_size, unused_tail_length, fill, new_append_buffer}
use msg.Buffers.Memory.Heaps.{
  AllKept, list_bytes-AllKept, AllKept-AllWithin, new_raw-Kept, get_or-append_end, get_or-append,
}
use msg.Buffers.Memory.Together.{HidesTail, AppendBuffer, Apart, Together, Appends}
use msg.Buffers.Memory.Filling.{fill-Appends}

module _ (other : BufferList) where
  pub Appends-nil :
      (h : Heap) (bl : BufferList) → Together h bl other → Appends h bl other [] (returns (h, bl))
  Appends-nil h bl t = (sym (append-nil (bytes h bl)), refl, t)

  pub Appends-trans :
      (h h' : Heap) (bl bl' : BufferList) (xs ys : List ℕ) (r : Returned (Heap × BufferList))
      → bytes h' bl' ≡ bytes h bl ++ xs
      → bytes h' other ≡ bytes h other
      → Appends h' bl' other ys r
      → Appends h bl other (xs ++ ys) r
  Appends-trans h h' bl bl' xs ys (returns (k, c)) e f a =
      (a.0 ∙ ap (λ t. t ++ ys) e ∙ append_assoc (bytes h bl) xs ys, a.1 ∙ f, a.2)
  Appends-trans h h' bl bl' xs ys end_of_buffer e f a = a
  Appends-trans h h' bl bl' xs ys asserts e f a = a
  Appends-trans h h' bl bl' xs ys undefined e f a = a

  pub fill_lem :
      (h : Heap) (bl : BufferList) (src : List ℕ)
      → Together h bl other
      → 0 < length src
      → length src ≤ unused_tail_length h bl.append_buffer
      → bl.len + length src < 4294967296
      → Appends h bl other src (fill src h bl)
  unfolding unused_tail_length
  fill_lem h bl src t p e f =
      (elim bl.append_buffer
          as (λ a.
            Together h (record bl { append_buffer = a }) other
            → length src ≤ unused_tail_length h a
            → Appends h bl other src (fill src h (record bl { append_buffer = a }))) [
              | none ↦ λ _ u. absurd (omega arith)
              | some a ↦ λ v u. fill-Appends h bl other src a v p (omega (arith, v.buffer)) f
            ])
        t e

  module _ (uninit : ℕ → List ℕ) (sized : (n : ℕ) → length (uninit n) ≡ n) where
    -- A new append_buffer has room, and belongs to no other list.
    abbrev pub Fresh : ℕ → Heap → BufferList → Heap × BufferList → Type 0
    Fresh len h bl (h', bl') =
        Together h' bl' other
        × (bytes h' bl' ≡ bytes h bl)
        × (bytes h' other ≡ bytes h other)
        × (bl'.len ≡ bl.len)
        × (len ≤ unused_tail_length h' bl'.append_buffer)

    pub new_append_buffer-Fresh :
        (len : ℕ) (h : Heap) (bl : BufferList)
        → Together h bl other
        → 0 < len
        → len < 4294963200
        → Fresh len h bl (new_append_buffer uninit len h bl)
    unfolding new_append_buffer unused_tail_length wrap32
    new_append_buffer-Fresh len h bl t p e = (
      record {
        sound = (AllKept-AllWithin h h' bl.buffers mine, t.sound.1, t.sound.2);
        other_sound =
            (AllKept-AllWithin h h' other.buffers theirs, t.other_sound.1, t.other_sound.2);
        buffer = (omega (arith, grows), refl, omega arith, omega (arith, size));
        other_buffer = still other.append_buffer t.other_buffer;
        apart = away other.append_buffer t.other_buffer;
        own = unseen bl.buffers t.sound.0;
        others = unseen other.buffers t.other_sound.0;
        of_other = t.of_other;
        other_own = t.other_own;
      },
      list_bytes-AllKept h h' bl.buffers mine,
      list_bytes-AllKept h h' other.buffers theirs,
      refl,
      omega (arith, size),
    )
      where
        alen : ℕ
        alen = wrap32 (page_size * ((len - 1) / page_size + 1))

        x : Raw
        x = record { content = uninit alen; shareable = true }

        h' : Heap
        h' = h ++ (x ∷ [])

        grows : length h' ≡ length h + 1
        grows = length-append h (x ∷ []) ∙ omega arith

        size : length (content_of h' (length h)) ≡ alen
        size = ap (λ r. length r.content) (get_or-append_end h x no_raw) ∙ sized alen

        keeps : (ps : List Ptr) → AllWithin h ps → AllKept h h' ps
        keeps [] w = tt
        keeps (q ∷ qs) w = (new_raw-Kept h x q w.0, keeps qs w.1)

        mine : AllKept h h' bl.buffers
        mine = keeps bl.buffers t.sound.0

        theirs : AllKept h h' other.buffers
        theirs = keeps other.buffers t.other_sound.0

        fresh : Ptr
        fresh = record { raw = length h; off = 0; len = 0 }

        unseen : (ps : List Ptr) → AllWithin h ps → HidesTail (some fresh) ps
        unseen [] w = tt
        unseen (q ∷ qs) w = (λ u. absurd (omega (arith, w.0.0)), unseen qs w.1)

        still : (b : Option Ptr) → AppendBuffer h b → AppendBuffer h' b
        still none u = tt
        still (some b) u =
            let same = ap (λ r. length r.content) (get_or-append h (x ∷ []) b.raw no_raw u.0) in
            (omega (arith, grows, u.0), u.1, omega (arith, same, u.2), omega (arith, same, u.3))

        away : (b : Option Ptr) → AppendBuffer h b → Apart (some fresh) b
        away none u = tt
        away (some b) u = λ q. omega (arith, u.0)
