-- ===== src/Armor.antt =====
-- src/armor.c: base64 with optional line breaks. The source and the destination are lists of bytes;
-- `room` is what is left of the destination, dst_end - dst.
pub mod Bits
pub mod RoundTrip
pub mod Width
mod Examples
use Prim.Native.Char.{code}
use Prim.Native.String.{String}
use msg.Prelude.{
  ℕ, zero, suc, ◌+◌, ◌-◌, ◌*◌, ◌/◌, ◌%◌, Bool, true, false, ◌&&◌, ◌||◌, Option, none, some, List,
  [], ◌∷◌, ◌++◌, bit_and, bit_or, leb, ltb, ◌==◌, if◌then◌else◌, get_or, length,
}

abbrev pub codes : String → List ℕ
codes String.[] = []
codes (String.◌∷◌ c s) = code c ∷ codes s

abbrev pub pem_key : List ℕ
pem_key = codes "ABCDEFGHIJKLMNOPQRSTUVWXYZabcdefghijklmnopqrstuvwxyz0123456789+/"

unfoldable pub encode_bits : ℕ → ℕ
encode_bits c = get_or pem_key c 0

abbrev pub between : ℕ → ℕ → ℕ → Bool
between lo hi c = leb lo c && leb c hi

-- `none` is -EINVAL.
unfoldable pub decode_bits : ℕ → Option ℕ
decode_bits c =
    if between b'A' b'Z' c
    then some (c - b'A')
    else (if between b'a' b'z' c
        then some (c - b'a' + 26)
        else (if between b'0' b'9' c
            then some (c - b'0' + 52)
            else (if c == b'+' || c == b'-'
                then some 62
                else (if c == b'/' || c == b'_'
                    then some 63
                    else (if c == b'=' then some 0 else none)))))

-- set_str_val for each byte: `none` is -ERANGE.
unfoldable pub set_dst : List ℕ → ℕ → Option ℕ
set_dst [] room = some room
set_dst (c ∷ cs) zero = none
set_dst (c ∷ cs) (suc room) = set_dst cs room

-- the characters for one, two or three bytes
unfoldable pub quad1 : ℕ → List ℕ
quad1 a = encode_bits (a / 4) ∷ (encode_bits (bit_and a 3 * 16) ∷ (b'=' ∷ (b'=' ∷ [])))

unfoldable pub quad2 : ℕ → ℕ → List ℕ
quad2 a b =
    encode_bits (a / 4)
    ∷ (encode_bits (bit_or (bit_and a 3 * 16) (b / 16))
        ∷ (encode_bits (bit_and b 15 * 4) ∷ (b'=' ∷ [])))

unfoldable pub quad3 : ℕ → ℕ → ℕ → List ℕ
quad3 a b c =
    encode_bits (a / 4)
    ∷ (encode_bits (bit_or (bit_and a 3 * 16) (b / 16))
        ∷ (encode_bits (bit_or (bit_and b 15 * 4) (c / 64)) ∷ (encode_bits (bit_and c 63) ∷ [])))

-- The end of a round: a line break if the line is full.
abbrev pub full : ℕ → ℕ → Bool
full width line = ltb 0 width && (line == width)

abbrev pub break : ℕ → ℕ → List ℕ
break width line = if full width line then b'\n' ∷ [] else []

abbrev pub next_line : ℕ → ℕ → ℕ
next_line width line = if full width line then 0 else line

-- What was written to dst, and olen.
abbrev pub Output : Type 0
Output = List ℕ × ℕ

abbrev pub prepend : List ℕ → Option Output → Option Output
prepend cs none = none
prepend cs (some (out, olen)) = some (cs ++ out, length cs + olen)

-- A round writes four characters, and maybe a line break.
unfoldable pub armor_loop : ℕ → ℕ → ℕ → List ℕ → Option Output
armor_loop width line room [] = some ([], 0)
armor_loop width line room (a ∷ []) =
    let cs = quad1 a ++ break width (line + 4) in
    elim (set_dst cs room) [ none ↦ none | some left ↦ prepend cs (some ([], 0)) ]
armor_loop width line room (a ∷ (b ∷ [])) =
    let cs = quad2 a b ++ break width (line + 4) in
    elim (set_dst cs room) [ none ↦ none | some left ↦ prepend cs (some ([], 0)) ]
armor_loop width line room (a ∷ (b ∷ (c ∷ rest))) =
    let cs = quad3 a b c ++ break width (line + 4) in
    elim (set_dst cs room) [
      | none ↦ none
      | some left ↦ prepend cs (armor_loop width (next_line width (line + 4)) left rest)
    ]

unfoldable pub armor_line_break : ℕ → ℕ → List ℕ → Option Output
armor_line_break width room src = armor_loop width 0 room src

unfoldable pub armor : ℕ → List ℕ → Option Output
unfolding armor_line_break
armor room src = armor_line_break 0 room src

pub data Result : Type 0 where
  ok : List ℕ → ℕ → Result
  invalid : Result
  range : Result

-- SET_DST in unarmor, then what follows
abbrev pub store : ℕ → ℕ → (ℕ → Result) → Result
store c zero k = range
store c (suc room) k = elim (k room) [
  | ok out olen ↦ ok ((c % 256) ∷ out) (olen + 1)
  | invalid ↦ invalid
  | range ↦ range
]

-- One round of unarmor on the values `a b c d`; `p2` and `p3` say whether the third and the fourth
-- character is '='.
unfoldable pub unarmor_quad : ℕ → ℕ → ℕ → ℕ → Bool → Bool → ℕ → (ℕ → Result) → Result
unarmor_quad a b c d p2 p3 room rest = store (bit_or (a * 4) (b / 16)) room λ room.
    if p2
    then ok [] 0
    else store (bit_or (bit_and b 15 * 16) (c / 4)) room
        λ room. if p3 then ok [] 0 else store (bit_or (bit_and c 3 * 64) d) room rest

-- `a < 0 || b < 0 || c < 0 || d < 0` is -EINVAL.
unfoldable pub unarmor_group :
    Option ℕ → Option ℕ → Option ℕ → Option ℕ → Bool → Bool → ℕ → (ℕ → Result) → Result
unarmor_group (some a) (some b) (some c) (some d) p2 p3 room rest =
    unarmor_quad a b c d p2 p3 room rest
unarmor_group _ _ _ _ p2 p3 room rest = invalid

unfoldable pub unarmor : ℕ → List ℕ → Result
unarmor room [] = ok [] 0
unarmor room (x ∷ []) = if x == b'\n' then ok [] 0 else invalid
unarmor room (x ∷ (y ∷ [])) =
    let skip = unarmor room (y ∷ []) in if x == b'\n' then skip else invalid
unarmor room (x ∷ (y ∷ (z ∷ []))) =
    let skip = unarmor room (y ∷ (z ∷ [])) in if x == b'\n' then skip else invalid
unarmor room (x ∷ (y ∷ (z ∷ (w ∷ rest)))) =
    let skip = unarmor room (y ∷ (z ∷ (w ∷ rest))) in
    let group =
      unarmor_group (decode_bits x) (decode_bits y) (decode_bits z) (decode_bits w) (z == b'=')
        (w == b'=') room (λ left. unarmor left rest) in
    if x == b'\n' then skip else group
