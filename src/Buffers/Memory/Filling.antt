-- ===== src/Buffers/Memory/Filling.antt =====
-- Filling the append_buffer of one of two lists (src/buffer.cc).
use msg.Prelude.{
  ℕ, ◌+◌, ◌-◌, ◌≤◌, ◌<◌, ◌≡◌, refl, sym, ap, ap₂, ◌∙◌, subst, arith, List, [], ◌∷◌, ◌++◌, length,
  take, drop, leb, by_if, Option, none, some,
}
use msg.Buffers.{
  Heap, Ptr, BufferList, Returned, returns, end_of_buffer, asserts, undefined, ◌>>=◌, part,
  append_part,
}
use msg.Buffers.View.{content_of, ptr_bytes, bytes, IsWithin, AllWithin, IsSound}
use msg.Buffers.Substr.{ptr_bytes-part}
use msg.Buffers.Append.{Holds, append_part-Holds}
use msg.Buffers.Memory.{unused_tail_length, write_raw, ptr_append, fill}
use msg.Buffers.Memory.Heaps.{
  AllKept, list_bytes-AllKept, AllKept-AllWithin, write_raw-Kept, length-write,
  length-content-write, content-write_self, overwrite_back,
}
use msg.Buffers.Memory.Together.{
  Shows, HidesTail, AppendBuffer, Apart, Together, Appends, After, append_part-After,
}

-- Room for `src` in the append_buffer `a`, of which `other` shows nothing that is unused.
module _ (h : Heap) (bl other : BufferList) (src : List ℕ) (a : Ptr)
    (t : Together h (record bl { append_buffer = some a }) other) (pos : 0 < length src)
    (room : a.len + length src ≤ length (content_of h a.raw))
    (fits : bl.len + length src < 4294967296) where
  abbrev written : Heap
  written = write_raw a.raw (a.off + a.len) src h

  abbrev longer : Ptr
  longer = record a { len = a.len + length src }

  abbrev before : BufferList
  before = record bl { append_buffer = some longer }

  within : a.off + a.len + length src ≤ length (content_of h a.raw)
  within = omega (arith, t.buffer)

  keeps : (ps : List Ptr) → AllWithin h ps → HidesTail (some a) ps → AllKept h written ps
  keeps [] w s = tt
  keeps (p ∷ ps) w s =
      (write_raw-Kept h a.raw (a.off + a.len) src t.buffer.0 within p w.0 s.0, keeps ps w.1 s.1)

  longer-IsWithin : IsWithin written longer
  longer-IsWithin = (
    omega (arith, length-write h a.raw (a.off + a.len) src t.buffer.0 within, t.buffer),
    omega (arith, length-content-write h a.raw (a.off + a.len) src t.buffer.0 within a.raw, within),
    omega arith,
    omega
        (arith, length-content-write h a.raw (a.off + a.len) src t.buffer.0 within a.raw, t.buffer),
  )

  abbrev at : ℕ
  at = longer.off + longer.len - length src

  at_lem : longer.off + at ≡ a.off + a.len
  at_lem = omega (arith, t.buffer)

  -- The new part holds the new bytes.
  new_part : take (length src) (drop at (ptr_bytes written longer)) ≡ src
  new_part =
      sym (ptr_bytes-part written longer at (length src) (omega (arith, t.buffer)))
      ∙ ap (λ k. take (length src) (drop k (content_of written a.raw))) at_lem
      ∙ ap (λ c. take (length src) (drop (a.off + a.len) c))
          (content-write_self h a.raw (a.off + a.len) src t.buffer.0 within a.raw refl)
      ∙ overwrite_back (a.off + a.len) src (content_of h a.raw) within

  wider : (ps : List Ptr) → HidesTail (some a) ps → HidesTail (some longer) ps
  wider [] w = tt
  wider (p ∷ ps) w = (λ e. omega (arith, w.0 e), wider ps w.1)

  other_kept : (b : Option Ptr) → AppendBuffer h b → AppendBuffer written b
  other_kept none u = tt
  other_kept (some b) u = (
    omega (arith, length-write h a.raw (a.off + a.len) src t.buffer.0 within, u.0),
    u.1,
    omega (arith, length-content-write h a.raw (a.off + a.len) src t.buffer.0 within b.raw, u.2),
    omega (arith, length-content-write h a.raw (a.off + a.len) src t.buffer.0 within b.raw, u.3),
  )

  far : (b : Option Ptr) → Apart (some a) b → Shows b (part longer at (length src))
  far none u = tt
  far (some b) u = λ e. absurd (u e)

  near : Shows (some longer) (part longer at (length src))
  near = λ e. omega (arith, t.buffer)

  still-Apart : (b : Option Ptr) → Apart (some a) b → Apart (some longer) b
  still-Apart none u = tt
  still-Apart (some b) u = u

  bl_kept : AllKept h written bl.buffers
  bl_kept = keeps bl.buffers t.sound.0 t.own

  before_sound : IsSound written before
  before_sound = (AllKept-AllWithin h written bl.buffers bl_kept, t.sound.1, t.sound.2)

  abbrev result : Returned BufferList
  result = append_part longer at (length src) before

  finish :
      (r : Returned BufferList)
      → Holds written
          (bytes written before ++ take (length src) (drop at (ptr_bytes written longer)))
          r
      → After (some longer) longer at (length src) near before r
      → After other.append_buffer longer at (length src) (far other.append_buffer t.apart) before r
      → Appends h bl other src (r >>= λ bl'. returns (written, bl'))
  finish (returns bl') x y z =
      let k = keeps other.buffers t.other_sound.0 t.others in
      (
        x.0 ∙ ap₂ ◌++◌ (list_bytes-AllKept h written bl.buffers bl_kept) new_part,
        list_bytes-AllKept h written other.buffers k,
        record {
          sound = x.1;
          other_sound =
              (AllKept-AllWithin h written other.buffers k, t.other_sound.1, t.other_sound.2);
          buffer = subst (AppendBuffer written) (sym y.1) (
            longer-IsWithin.0,
            t.buffer.1,
            omega (arith, longer-IsWithin.1, t.buffer.1),
            longer-IsWithin.3,
          );
          other_buffer = other_kept other.append_buffer t.other_buffer;
          apart =
              subst (λ b. Apart b other.append_buffer) (sym y.1)
                (still-Apart other.append_buffer t.apart);
          own = subst (λ b. HidesTail b bl'.buffers) (sym y.1) y.0;
          others = subst (λ b. HidesTail b other.buffers) (sym y.1) (wider other.buffers t.others);
          of_other = z.0;
          other_own = t.other_own;
        },
      )
  finish end_of_buffer x y z = x
  finish asserts x y z = x
  finish undefined x y z = x

  -- The list has the new bytes at its end, and neither list loses one.
  pub fill-Appends : Appends h bl other src (fill src h (record bl { append_buffer = some a }))
  unfolding fill ptr_append unused_tail_length
  fill-Appends =
      by_if P (leb (length src) (length (content_of h a.raw) - (a.off + a.len)))
        (λ _.
          finish result
            (append_part-Holds written longer at (length src) before before_sound longer-IsWithin
              (omega (arith, t.buffer)) (omega (arith, longer-IsWithin)) fits)
            (append_part-After (some longer) longer at (length src) near before
              (wider bl.buffers t.own))
            (append_part-After other.append_buffer longer at (length src)
              (far other.append_buffer t.apart) before t.of_other))
        λ u. absurd (ground (arith, within))
    where
      P : Returned (Heap × Ptr) → Type 0
      P r = Appends h bl other src (
          r >>= λ s.
          append_part s.1 (s.1.off + s.1.len - length src) (length src)
            (record bl { append_buffer = some s.1 })
          >>= λ bl'. returns (s.0, bl'))
