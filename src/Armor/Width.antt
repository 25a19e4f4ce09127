-- ===== src/Armor/Width.antt =====
-- What armor_line_break writes, and how much room it takes (src/armor.c).
use msg.Prelude.{
  ℕ, zero, suc, ◌+◌, ◌-◌, ◌≤◌, ◌<◌, ◌≡◌, refl, sym, ap, ◌∙◌, Option, none, some, List, [], ◌∷◌,
  ◌++◌, arith, length, length-append, ◌⊎◌, inl, inr, Bool-cases, append_assoc, append-nil, leb,
  if◌then◌else◌,
}
use msg.Armor.{
  set_dst, quad1, quad2, quad3, break, next_line, Output, prepend, armor_loop, armor_line_break,
}

-- The text, whatever the room.
unfoldable pub text : ℕ → ℕ → List ℕ → List ℕ
text width line [] = []
text width line (a ∷ []) = quad1 a ++ break width (line + 4)
text width line (a ∷ (b ∷ [])) = quad2 a b ++ break width (line + 4)
text width line (a ∷ (b ∷ (c ∷ rest))) =
    quad3 a b c ++ (break width (line + 4) ++ text width (next_line width (line + 4)) rest)

set_dst_lem :
    (cs : List ℕ) (room : ℕ)
    → set_dst cs room ≡ (if leb (length cs) room then some (room - length cs) else none)
unfolding set_dst
set_dst_lem [] room = ground arith
set_dst_lem (c ∷ cs) zero = ground arith
set_dst_lem (c ∷ cs) (suc room) = ground (arith, set_dst_lem cs room)

-- `t` is written if it fits, and -ERANGE is returned if not.
abbrev pub fits : List ℕ → ℕ → Option Output
fits t room = if leb (length t) room then some (t, length t) else none

-- The destination takes the characters, or has no room for them.
set_dst-cases :
    (cs : List ℕ) (room : ℕ)
    → ((left : ℕ) × (room ≡ length cs + left) × (set_dst cs room ≡ some left))
      ⊎ ((room < length cs) × (set_dst cs room ≡ none))
unfolding set_dst
set_dst-cases [] room = inl (room, omega arith, refl)
set_dst-cases (c ∷ cs) zero = inr (omega arith, refl)
set_dst-cases (c ∷ cs) (suc room) = elim (set_dst-cases cs room) [
  | inl (left, e, s) ↦ inl (left, omega arith, s)
  | inr (lt, s) ↦ inr (omega arith, s)
]

fits-none : (t : List ℕ) (room : ℕ) → room < length t → fits t room ≡ none
fits-none t room lt = ground arith

fits-some : (t : List ℕ) (room : ℕ) → length t ≤ room → fits t room ≡ some (t, length t)
fits-some t room le = ground arith

leb-cases : (m n : ℕ) → (m ≤ n) ⊎ (n < m)
leb-cases m n = elim (Bool-cases (leb m n)) [
  | inl e ↦ inl (ground arith)
  | inr e ↦ inr (ground arith)
]

prepend-fits :
    (cs t : List ℕ) (left : ℕ) → prepend cs (fits t left) ≡ fits (cs ++ t) (length cs + left)
prepend-fits cs t left = elim (leb-cases (length t) left) [
  | inl e ↦
      let long : length (cs ++ t) ≤ length cs + left = rw (length-append cs t) (omega arith) in
      ap (prepend cs) (fits-some t left e)
      ∙ rw (sym (length-append cs t)) (sym (fits-some (cs ++ t) (length cs + left) long))
  | inr e ↦
      let long : length cs + left < length (cs ++ t) = rw (length-append cs t) (omega arith) in
      ap (prepend cs) (fits-none t left e) ∙ sym (fits-none (cs ++ t) (length cs + left) long)
]

-- A round before the rest, whose text is `t`.
next_quad :
    (cs t : List ℕ) (room : ℕ) (k : ℕ → Option Output)
    → ((left : ℕ) → k left ≡ fits t left)
    → (elim (set_dst cs room) [ none ↦ none | some left ↦ prepend cs (k left) ])
      ≡ fits (cs ++ t) room
next_quad cs t room k h = elim (set_dst-cases cs room) [
  | inl (left, e, s) ↦ rw s (rw (h left) (prepend-fits cs t left ∙ ap (fits (cs ++ t)) (sym e)))
  | inr (lt, s) ↦
      let long : room < length (cs ++ t) = rw (length-append cs t) (omega arith) in
      rw s (sym (fits-none (cs ++ t) room long))
]

last_quad :
    (cs : List ℕ) (room : ℕ)
    → (elim (set_dst cs room) [ none ↦ none | some left ↦ prepend cs (some ([], 0)) ])
      ≡ fits cs room
last_quad cs room =
    next_quad cs [] room (λ left. some ([], 0)) (λ left. ground arith)
    ∙ ap (λ t. fits t room) (append-nil cs)

armor_loop-text :
    (width line room : ℕ) (src : List ℕ)
    → armor_loop width line room src ≡ fits (text width line src) room
unfolding armor_loop text
armor_loop-text width line room [] = ground arith
armor_loop-text width line room (a ∷ []) = last_quad _ room
armor_loop-text width line room (a ∷ (b ∷ [])) = last_quad _ room
armor_loop-text width line room (a ∷ (b ∷ (c ∷ rest))) =
    let line' = next_line width (line + 4) in
    next_quad (quad3 a b c ++ break width (line + 4)) (text width line' rest) room
      (λ left. armor_loop width line' left rest) (λ left. armor_loop-text width line' left rest)
    ∙ ap (λ t. fits t room) (append_assoc (quad3 a b c) (break width (line + 4)) _)

-- armor_line_break writes its text exactly when the destination has room for all of it, and returns
-- the number of characters; otherwise it fails with -ERANGE.
pub armor_line_break-text :
    (width room : ℕ) (src : List ℕ) → armor_line_break width room src ≡ fits (text width 0 src) room
unfolding armor_line_break
armor_line_break-text width room src = armor_loop-text width 0 room src
