-- ===== src/Armor/RoundTrip.antt =====
-- unarmor reads back what armor_line_break wrote (src/armor.c).
use msg.Prelude.{
  ℕ, suc, ◌+◌, ◌-◌, ◌*◌, ◌/◌, ◌%◌, ◌≤◌, ◌<◌, ◌≡◌, refl, ap, ◌∙◌, false, some, List, [], ◌∷◌, ◌++◌,
  bit_and, bit_or, arith, length, ◌==◌, inl, inr, Bool-cases,
}
use msg.Armor.{
  encode_bits, decode_bits, quad1, quad2, quad3, break, full, next_line, armor_line_break, Result,
  ok, invalid, range, store, unarmor_quad, unarmor_group, unarmor,
}
use msg.Armor.Width.{text, armor_line_break-text}
use msg.Armor.Bits.{
  low2, low4, low6, join16, join4, join64, decode_bits-encode_bits, encode_bits_plain,
}

abbrev pub AllBytes : List ℕ → Type 0
AllBytes [] = Unit {0}
AllBytes (b ∷ bs) = (b < 256) × AllBytes bs

-- Four characters that decode are read as one group.
unarmor_four :
    (x y z w a b c d room : ℕ) (rest : List ℕ)
    → (x == b'\n') ≡ false
    → decode_bits x ≡ some a
    → decode_bits y ≡ some b
    → decode_bits z ≡ some c
    → decode_bits w ≡ some d
    → unarmor room (x ∷ (y ∷ (z ∷ (w ∷ rest))))
      ≡ unarmor_quad a b c d (z == b'=') (w == b'=') room (λ left. unarmor left rest)
unfolding unarmor unarmor_group
unarmor_four x y z w a b c d room rest nl ha hb hc hd = rw (nl, ha, hb, hc, hd)

unarmor_plain :
    (x y z w room : ℕ) (rest : List ℕ)
    → x < 64
    → y < 64
    → z < 64
    → w < 64
    → unarmor room (encode_bits x ∷ (encode_bits y ∷ (encode_bits z ∷ (encode_bits w ∷ rest))))
      ≡ unarmor_quad x y z w false false room (λ left. unarmor left rest)
unarmor_plain x y z w room rest hx hy hz hw =
    unarmor_four _ _ _ _ x y z w room rest (encode_bits_plain x hx).1 (decode_bits-encode_bits x hx)
      (decode_bits-encode_bits y hy) (decode_bits-encode_bits z hz) (decode_bits-encode_bits w hw)
    ∙ rw ((encode_bits_plain z hz).0, (encode_bits_plain w hw).0)

decode_pad : decode_bits b'=' ≡ some 0
unfolding decode_bits
decode_pad = refl

-- What unarmor makes of the values that armor cut three bytes into.
first : (a b : ℕ) → a < 256 → b < 256 → bit_or (a / 4 * 4) ((a % 4 * 16 + b / 16) / 16) ≡ a
first a b ha hb =
    let e : (a % 4 * 16 + b / 16) / 16 ≡ a % 4 = omega arith in
    rw (e, join4 (a / 4) (a % 4) (omega arith) (omega arith)) (omega arith)

second :
    (a b c : ℕ)
    → b < 256
    → c < 256
    → bit_or (bit_and (a % 4 * 16 + b / 16) 15 * 16) ((b % 16 * 4 + c / 64) / 4) ≡ b
second a b c hb hc =
    let e : (b % 16 * 4 + c / 64) / 4 ≡ b % 16 = omega arith in
    let f : bit_and (a % 4 * 16 + b / 16) 15 ≡ b / 16 =
      low4 (a % 4 * 16 + b / 16) (omega arith) ∙ omega arith in
    rw (e, f, join16 (b / 16) (b % 16) (omega arith) (omega arith)) (omega arith)

third : (b c : ℕ) → c < 256 → bit_or (bit_and (b % 16 * 4 + c / 64) 3 * 64) (c % 64) ≡ c
third b c hc =
    let f : bit_and (b % 16 * 4 + c / 64) 3 ≡ c / 64 =
      low2 (b % 16 * 4 + c / 64) (omega arith) ∙ omega arith in
    rw (f, join64 (c / 64) (c % 64) (omega arith) (omega arith)) (omega arith)

-- The characters with the shifts and masks as arithmetic.
pair : (a b : ℕ) → a < 256 → b < 256 → bit_or (bit_and a 3 * 16) (b / 16) ≡ a % 4 * 16 + b / 16
pair a b ha hb = rw (low2 a ha) (join16 (a % 4) (b / 16) (omega arith) (omega arith))

pair' : (b c : ℕ) → b < 256 → c < 256 → bit_or (bit_and b 15 * 4) (c / 64) ≡ b % 16 * 4 + c / 64
pair' b c hb hc = rw (low4 b hb) (join4 (b % 16) (c / 64) (omega arith) (omega arith))

unarmor-quad3 :
    (a b c room : ℕ) (rest : List ℕ)
    → a < 256
    → b < 256
    → c < 256
    → unarmor room (quad3 a b c ++ rest)
      ≡ store a room (λ r. store b r (λ r. store c r (λ r. unarmor r rest)))
unfolding quad3
unarmor-quad3 a b c room rest ha hb hc =
    rw (pair a b ha hb, pair' b c hb hc, low6 c hc)
      (unarmor_plain (a / 4) (a % 4 * 16 + b / 16) (b % 16 * 4 + c / 64) (c % 64) room rest
          (omega arith) (omega arith) (omega arith) (omega arith)
        ∙ values)
  where
    values :
        unarmor_quad
          (a / 4)
          (a % 4 * 16 + b / 16)
          (b % 16 * 4 + c / 64)
          (c % 64)
          false
          false
          room
          (λ r. unarmor r rest)
        ≡ store a room (λ r. store b r (λ r. store c r (λ r. unarmor r rest)))
    values = unfold unarmor_quad in rw (first a b ha hb, second a b c hb hc, third b c hc)

unarmor-quad2 :
    (a b room : ℕ) (rest : List ℕ)
    → a < 256
    → b < 256
    → unarmor room (quad2 a b ++ rest) ≡ store a room (λ r. store b r (λ r. ok [] 0))
unfolding quad2 unarmor_quad
unarmor-quad2 a b room rest ha hb =
    let z = b % 16 * 4 + 0 / 64 in
    let e : bit_and b 15 * 4 ≡ z = rw (low4 b hb) (omega arith) in
    rw (pair a b ha hb, e)
      (unarmor_four _ _ _ _ (a / 4) (a % 4 * 16 + b / 16) z 0 room rest
          (encode_bits_plain (a / 4) (omega arith)).1
          (decode_bits-encode_bits (a / 4) (omega arith))
          (decode_bits-encode_bits (a % 4 * 16 + b / 16) (omega arith))
          (decode_bits-encode_bits z (omega arith)) decode_pad
        ∙ rw
            ((encode_bits_plain z (omega arith)).0, first a b ha hb, second a b 0 hb (omega arith)))

unarmor-quad1 :
    (a room : ℕ) (rest : List ℕ)
    → a < 256
    → unarmor room (quad1 a ++ rest) ≡ store a room (λ r. ok [] 0)
unfolding quad1 unarmor_quad
unarmor-quad1 a room rest ha =
    let y = a % 4 * 16 + 0 / 16 in
    let e : bit_and a 3 * 16 ≡ y = rw (low2 a ha) (omega arith) in
    rw e (
      unarmor_four _ _ _ _ (a / 4) y 0 0 room rest (encode_bits_plain (a / 4) (omega arith)).1
        (decode_bits-encode_bits (a / 4) (omega arith)) (decode_bits-encode_bits y (omega arith))
        decode_pad decode_pad
      ∙ rw (first a 0 ha (omega arith)))

unarmor-newline : (room : ℕ) (rest : List ℕ) → unarmor room (b'\n' ∷ rest) ≡ unarmor room rest
unfolding unarmor
unarmor-newline room [] = refl
unarmor-newline room (x ∷ []) = refl
unarmor-newline room (x ∷ (y ∷ [])) = refl
unarmor-newline room (x ∷ (y ∷ (z ∷ rest))) = refl

unarmor-break :
    (room width line : ℕ) (rest : List ℕ)
    → unarmor room (break width line ++ rest) ≡ unarmor room rest
unarmor-break room width line rest = elim (Bool-cases (full width line)) [
  | inl e ↦ rw e (unarmor-newline room rest)
  | inr e ↦ rw e
]

-- A destination with room takes a byte.
store_lem :
    (a room n : ℕ) (out : List ℕ) (k : ℕ → Result)
    → a < 256
    → k room ≡ ok out n
    → store a (suc room) k ≡ ok (a ∷ out) (suc n)
store_lem a room n out k h e =
    let m : a % 256 ≡ a = omega arith in
    let s : n + 1 ≡ suc n = omega arith in ap push e ∙ rw (m, s)
  where
    push : Result → Result
    push r = elim r [
      | ok out olen ↦ ok ((a % 256) ∷ out) (olen + 1)
      | invalid ↦ invalid
      | range ↦ range
    ]

unarmor-text :
    (width line room : ℕ) (src : List ℕ)
    → AllBytes src
    → unarmor (length src + room) (text width line src) ≡ ok src (length src)
unfolding text
unarmor-text width line room [] h = unfold unarmor in refl
unarmor-text width line room (a ∷ []) h =
    let e : 1 + room ≡ suc room = omega arith in
    rw e (unarmor-quad1 a (suc room) _ h.0 ∙ store_lem a room 0 [] (λ r. ok [] 0) h.0 refl)
unarmor-text width line room (a ∷ (b ∷ [])) h =
    let e : 2 + room ≡ suc (suc room) = omega arith in
    let last : ℕ → Result = λ r. store b r (λ r. ok [] 0) in
    rw e (
      unarmor-quad2 a b (suc (suc room)) _ h.0 h.1.0
      ∙ store_lem a (suc room) 1 (b ∷ []) last h.0
          (store_lem b room 0 [] (λ r. ok [] 0) h.1.0 refl))
unarmor-text width line room (a ∷ (b ∷ (c ∷ src))) h =
    let n = length src + room in
    let e : suc (suc (suc (length src))) + room ≡ suc (suc (suc n)) = omega arith in
    let line' = next_line width (line + 4) in
    let tail = break width (line + 4) ++ text width line' src in
    let more : ℕ → Result = λ r. unarmor r tail in
    let third_byte : ℕ → Result = λ r. store c r more in
    let second_byte : ℕ → Result = λ r. store b r third_byte in
    rw e (
      unarmor-quad3 a b c (suc (suc (suc n))) tail h.0 h.1.0 h.1.1.0
      ∙ store_lem a (suc (suc n)) (suc (suc (length src))) (b ∷ (c ∷ src)) second_byte h.0 (
          store_lem b (suc n) (suc (length src)) (c ∷ src) third_byte h.1.0 (
            store_lem c n (length src) src more h.1.1.0
              (unarmor-break n width (line + 4) _ ∙ unarmor-text width line' room src h.1.1.1))))

-- Whatever armor_line_break writes, at any line width, unarmor turns back into the source bytes, if
-- its destination has room for them.
pub unarmor-armor_line_break :
    (width left room : ℕ) (src out : List ℕ) (olen : ℕ)
    → AllBytes src
    → length src ≤ room
    → armor_line_break width left src ≡ some (out, olen)
    → unarmor room out ≡ ok src (length src)
unarmor-armor_line_break width left room src out olen h r e =
    let t : out ≡ text width 0 src = ground (arith, armor_line_break-text width left src) in
    let n : room ≡ length src + (room - length src) = omega arith in
    rw (t, n) (unarmor-text width 0 (room - length src) src h)
