-- ===== src/Buffers/Memory/Together.antt =====
-- Two lists over one heap whose append_buffers are apart, and what filling an append_buffer does to
-- them (src/buffer.cc).
use msg.Prelude.{
  ℕ, ◌+◌, ◌≤◌, ◌<◌, ◌≡◌, ◌≢◌, refl, sym, ◌∙◌, arith, List, [], ◌∷◌, ◌++◌, length, leb, ◌==◌, ◌&&◌,
  by_if, Option, none, some,
}
use msg.Buffers.{
  Heap, Ptr, BufferList, Returned, returns, end_of_buffer, asserts, undefined, wrap32, part,
  push_back, grown, append_part,
}
use msg.Buffers.View.{content_of, bytes, IsSound}

-- A ptr shows nothing of the unused tail of an append_buffer.
abbrev pub Shows : Option Ptr → Ptr → Type 0
Shows none p = Unit
Shows (some a) p = p.raw ≡ a.raw → p.off + p.len ≤ a.off + a.len

abbrev pub HidesTail : Option Ptr → List Ptr → Type 0
HidesTail a [] = Unit
HidesTail a (p ∷ ps) = Shows a p × HidesTail a ps

abbrev pub AppendBuffer : Heap → Option Ptr → Type 0
AppendBuffer h none = Unit
AppendBuffer h (some a) =
    (a.raw < length h)
    × (a.off ≡ 0)
    × (a.len ≤ length (content_of h a.raw))
    × (length (content_of h a.raw) < 4294967296)

abbrev pub Apart : Option Ptr → Option Ptr → Type 0
Apart none b = Unit
Apart (some a) none = Unit
Apart (some a) (some b) = a.raw ≢ b.raw

-- Two lists that may share raws: no ptr of either shows the unused tail of either append_buffer.
pub record Together (h : Heap) (bl other : BufferList) : Type 0 where
  pub sound : IsSound h bl
  pub other_sound : IsSound h other
  pub buffer : AppendBuffer h bl.append_buffer
  pub other_buffer : AppendBuffer h other.append_buffer
  pub apart : Apart bl.append_buffer other.append_buffer
  pub own : HidesTail bl.append_buffer bl.buffers
  pub others : HidesTail bl.append_buffer other.buffers
  pub of_other : HidesTail other.append_buffer bl.buffers
  pub other_own : HidesTail other.append_buffer other.buffers

-- The bytes go to the end of the list, and the other list keeps its own.
abbrev pub Appends : Heap → BufferList → BufferList → List ℕ → Returned (Heap × BufferList) → Type 0
Appends h bl other xs (returns (h', bl')) =
    (bytes h' bl' ≡ bytes h bl ++ xs) × (bytes h' other ≡ bytes h other) × Together h' bl' other
Appends h bl other xs end_of_buffer = ⊥
Appends h bl other xs asserts = ⊥
Appends h bl other xs undefined = ⊥

module _ (x : Option Ptr) (p : Ptr) (o l : ℕ) (s : Shows x (part p o l)) where
  HidesTail-end : (ps : List Ptr) → HidesTail x ps → HidesTail x (ps ++ (part p o l ∷ []))
  HidesTail-end [] w = (s, tt)
  HidesTail-end (q ∷ qs) w = (w.0, HidesTail-end qs w.1)

  abbrev GrownHides : Option (List Ptr) → Type 0
  GrownHides none = Unit
  GrownHides (some ps) = HidesTail x ps

  longer_shows :
      (y : Option Ptr) (q : Ptr)
      → q.raw ≡ p.raw
      → q.off + q.len ≡ p.off + o
      → Shows y (part p o l)
      → Shows y (record q { len = q.len + l })
  longer_shows none q r e t = tt
  longer_shows (some a) q r e t = λ u. omega (arith, t (sym r ∙ u))

  grown-GrownHides : (ps : List Ptr) → HidesTail x ps → GrownHides (grown p o l ps)
  unfolding grown
  grown-GrownHides [] w = tt
  grown-GrownHides (q ∷ []) w =
      by_if GrownHides ((q.raw == p.raw) && (q.off + q.len == p.off + o))
        (λ t. (longer_shows x q (ground arith) (ground arith) s, tt)) λ t. tt
  grown-GrownHides (q ∷ r ∷ qs) w = longer (grown p o l (r ∷ qs)) (grown-GrownHides (r ∷ qs) w.1)
    where
      longer :
          (g : Option (List Ptr))
          → GrownHides g
          → GrownHides (elim g [ none ↦ none | some rs ↦ some (q ∷ rs) ])
      longer none y = tt
      longer (some rs) y = (w.0, y)

  abbrev pub After : BufferList → Returned BufferList → Type 0
  After bl (returns bl') = HidesTail x bl'.buffers × (bl'.append_buffer ≡ bl.append_buffer)
  After bl end_of_buffer = Unit
  After bl asserts = Unit
  After bl undefined = Unit

  pub append_part-After :
      (bl : BufferList) → HidesTail x bl.buffers → After bl (append_part p o l bl)
  unfolding append_part push_back
  append_part-After bl w =
      by_if (After bl) (leb (wrap32 (l + o)) p.len)
        (λ t. by_grown (grown p o l bl.buffers) (grown-GrownHides bl.buffers w)) λ t. tt
    where
      by_grown :
          (g : Option (List Ptr))
          → GrownHides g
          → After bl (
              returns (elim g as (λ g. BufferList) [
                | some ps ↦ record bl { buffers = ps; len = wrap32 (bl.len + l) }
                | none ↦ push_back (part p o l) bl
              ]))
      by_grown (some ps) y = (y, refl)
      by_grown none y =
          by_if (λ r. After bl (returns r)) (l == 0) (λ t. (w, refl))
            λ t. (HidesTail-end bl.buffers w, refl)
