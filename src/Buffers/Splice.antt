-- ===== src/Buffers/Splice.antt =====
-- splice, which takes a range out of a list (src/buffer.cc).
pub mod Claim
mod Skip
mod Loops
pub mod Cut
use msg.Prelude.{
  ℕ, zero, suc, ◌+◌, ◌-◌, List, [], ◌∷◌, ◌++◌, ltb, leb, ◌==◌, if◌then◌else◌, Option, none, some,
}
use msg.Buffers.{
  Ptr, BufferList, Returned, returns, end_of_buffer, asserts, ◌>>=◌, wrap32, part, begin,
  append_part,
}

-- the first loop: the ptrs that it skips, those from `curbuf` on, and the offset in `curbuf`
unfoldable pub splice_skip : List Ptr → ℕ → Returned (List Ptr × List Ptr × ℕ)
splice_skip ps zero = returns ([], ps, 0)
splice_skip [] (suc n) = asserts
splice_skip (p ∷ ps) (suc n) =
    let rest = splice_skip ps (suc n - p.len) >>= λ s. returns (p ∷ s.0, s.1, s.2) in
    if leb p.len (suc n) then rest else returns ([], p ∷ ps, suc n)

-- claim_by->append, when there is a list to claim the bytes
unfoldable pub claimed : Ptr → ℕ → ℕ → Option BufferList → Returned (Option BufferList)
claimed p o l none = returns none
claimed p o l (some c) = append_part p o l c >>= λ c'. returns (some c')

-- `_len -= n`
unfoldable pub sub32 : ℕ → ℕ → ℕ
sub32 a b = wrap32 (a + 4294967296 - b)

-- the second loop, from `curbuf` on, with `_len` and `claim_by`
unfoldable pub splice_loop :
    List Ptr → ℕ → ℕ → ℕ → Option BufferList → Returned (List Ptr × ℕ × Option BufferList)
splice_loop ps o zero n c = returns (ps, n, c)
splice_loop [] o (suc l) n c = returns ([], n, c)
splice_loop (p ∷ ps) o (suc l) n c =
    let howmuch = p.len - o in
    let cut = wrap32 (o + suc l) in
    let kept = record p { off = wrap32 (cut + p.off); len = p.len - cut } in
    let keep = claimed p o (suc l) c >>= λ c'. returns (kept ∷ ps, sub32 n cut, c') in
    let hose =
      claimed p o howmuch c >>= λ c'. splice_loop ps 0 (suc l - howmuch) (sub32 n p.len) c' in
    if ltb cut p.len then keep else hose

-- the bit of `curbuf` in front of the range, which is inserted when the offset is not 0
abbrev pub kept_front : List Ptr → ℕ → List Ptr
kept_front ps zero = []
kept_front [] (suc o) = []
kept_front (p ∷ ps) (suc o) = part p 0 (suc o) ∷ []

unfoldable pub splice :
    ℕ → ℕ → Option BufferList → BufferList → Returned (BufferList × Option BufferList)
splice o l claim_by bl =
    let body = splice_skip bl.buffers o >>= λ s.
    splice_loop s.1 s.2 l (wrap32 (bl.len + s.2)) claim_by >>= λ t.
    let ps = s.0 ++ (kept_front s.1 s.2 ++ t.0) in
    returns (record bl { buffers = ps; len = t.1; last_p = begin ps }, t.2) in
    if l == 0 then returns (bl, claim_by) else (if leb bl.len o then end_of_buffer else body)
