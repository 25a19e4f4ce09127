-- ===== src/Buffers.antt =====
-- Buffers: raw, ptr and list (src/buffer.cc, include/msgr/buffer.h). The raws are a heap, a ptr is the
-- index of its raw, an offset and a length. An `unsigned` keeps its wrap-around; reference counts and
-- the release of raws are left out.
pub mod View
pub mod Substr
pub mod Append
pub mod Splice
pub mod Compare
pub mod Memory
pub mod Claim
pub mod Reading
pub mod Contiguous
mod Examples
use msg.Prelude.{
  ℕ, zero, suc, ◌+◌, ◌-◌, ◌%◌, ◌≡◌, Bool, true, false, List, [], ◌∷◌, ◌++◌, length, take, drop,
  get_or, ltb, leb, ◌==◌, ◌&&◌, if◌then◌else◌, Option, none, some,
}

pub record Raw : Type 0 where
  pub content : List ℕ
  pub shareable : Bool

abbrev pub Heap : Type 0
Heap = List Raw

pub record Ptr : Type 0 where
  pub raw : ℕ
  pub off : ℕ
  pub len : ℕ

-- where the cached iterator of a list stands: at one of its nodes, past the last one, or at a node
-- that has been freed
pub data Place : Type 0 where
  at_node : ℕ → Place
  past : Place
  dangling : Place

pub record Cursor : Type 0 where
  pub off : ℕ
  pub place : Place
  pub p_off : ℕ

-- `append_buffer` has no raw before the first small append.
pub record BufferList : Type 0 where
  pub buffers : List Ptr
  pub len : ℕ
  pub memcopy_count : ℕ
  pub append_buffer : Option Ptr
  pub last_p : Cursor

-- a value, an exception, a failed assertion, or a std::list read at its end
pub data Returned {ℓ} (A : Type ℓ) : Type ℓ where
  returns : A → Returned A
  end_of_buffer : Returned A
  asserts : Returned A
  undefined : Returned A

infixl 5 ◌>>=◌
abbrev pub ◌>>=◌ {ℓ κ} : {A : Type ℓ} {B : Type κ} → Returned A → (A → Returned B) → Returned B
returns a >>= f = f a
end_of_buffer >>= f = end_of_buffer
asserts >>= f = asserts
undefined >>= f = undefined

unfoldable pub wrap32 : ℕ → ℕ
wrap32 n = n % 4294967296

-- ptr(p, o, l) inside its bounds
abbrev pub part : Ptr → ℕ → ℕ → Ptr
part p o l = record { raw = p.raw; off = p.off + o; len = l }

-- begin()
unfoldable pub begin : List Ptr → Cursor
begin [] = record { off = 0; place = past; p_off = 0 }
begin (p ∷ ps) = record { off = 0; place = at_node 0; p_off = 0 }

unfoldable pub clear : BufferList → BufferList
clear bl = record bl { buffers = []; len = 0; memcopy_count = 0; last_p = begin [] }

-- A node in front of the list shifts the place of the iterator, which keeps its offset.
unfoldable pub shifted : ℕ → Cursor → Cursor
shifted n c = record c {
  place = elim c.place [ at_node i ↦ at_node (n + i) | past ↦ past | dangling ↦ dangling ];
}

unfoldable pub push_back : Ptr → BufferList → BufferList
push_back p bl =
    if p.len == 0
    then bl
    else record bl { buffers = bl.buffers ++ (p ∷ []); len = wrap32 (bl.len + p.len) }

unfoldable pub push_front : Ptr → BufferList → BufferList
push_front p bl = if p.len == 0 then bl else record bl {
  buffers = p ∷ bl.buffers;
  len = wrap32 (bl.len + p.len);
  last_p = shifted 1 bl.last_p;
}

-- append(bp, off, len): the last ptr of the list, if it ends where the new part starts, grows.
unfoldable pub grown : Ptr → ℕ → ℕ → List Ptr → Option (List Ptr)
grown p o l [] = none
grown p o l (q ∷ []) =
    if (q.raw == p.raw) && (q.off + q.len == p.off + o)
    then some (record q { len = q.len + l } ∷ [])
    else none
grown p o l (q ∷ r ∷ qs) = elim (grown p o l (r ∷ qs)) [ none ↦ none | some rs ↦ some (q ∷ rs) ]

unfoldable pub append_part : Ptr → ℕ → ℕ → BufferList → Returned BufferList
append_part p o l bl =
    let joined = elim (grown p o l bl.buffers) as (λ g. BufferList) [
      | some ps ↦ record bl { buffers = ps; len = wrap32 (bl.len + l) }
      | none ↦ push_back (part p o l) bl
    ] in
    if leb (wrap32 (l + o)) p.len then returns joined else asserts

-- append(bl)
unfoldable pub append_list : BufferList → BufferList → BufferList
append_list other bl = record bl {
  buffers = bl.buffers ++ other.buffers;
  len = wrap32 (bl.len + other.len);
}

-- share(bl), from another list
unfoldable pub share_loop : List Ptr → BufferList → BufferList
share_loop [] bl = bl
share_loop (p ∷ ps) bl = share_loop ps (push_back p bl)

unfoldable pub share : BufferList → BufferList → BufferList
share other bl = share_loop other.buffers (clear bl)

-- the loop of substr_of and of get_contiguous that skips `off` bytes
unfoldable pub skip_to : List Ptr → ℕ → Returned (List Ptr × ℕ)
skip_to ps zero = returns (ps, 0)
skip_to [] (suc n) = undefined
skip_to (p ∷ ps) (suc n) =
    let rest = skip_to ps (suc n - p.len) in
    if leb p.len (suc n) then rest else returns (p ∷ ps, suc n)

-- a ptr in front of what a loop collects, its length counted
unfoldable pub collect : Ptr → Returned (List Ptr × ℕ) → Returned (List Ptr × ℕ)
collect p r = r >>= λ q. returns (p ∷ q.0, p.len + q.1)

-- the second loop of substr_of: the ptrs that it pushes, and the sum of their lengths
unfoldable pub substr_loop : List Ptr → ℕ → ℕ → Returned (List Ptr × ℕ)
substr_loop ps o zero = returns ([], 0)
substr_loop [] o (suc l) = undefined
substr_loop (p ∷ ps) o (suc l) =
    let howmuch = p.len - o in
    let rest = substr_loop ps 0 (suc l - howmuch) in
    if ltb (wrap32 (o + suc l)) p.len
    then returns (part p o (suc l) ∷ [], suc l)
    else collect (part p o howmuch) rest

-- substr_of, from another list
unfoldable pub substr_of : BufferList → ℕ → ℕ → BufferList → Returned BufferList
substr_of other o l bl =
    let body = skip_to other.buffers o >>= λ s. substr_loop s.0 s.1 l >>= λ q.
    returns (record (clear bl) { buffers = q.0; len = wrap32 q.1 }) in
    if ltb other.len (wrap32 (o + l)) then end_of_buffer else body
