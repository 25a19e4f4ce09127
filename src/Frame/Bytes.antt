-- ===== src/Frame/Bytes.antt =====
-- The bytes of packed structures (include/msgr/msgr.h).
use msg.Prelude.{
  ℕ, zero, suc, ◌*◌, ◌/◌, ◌<◌, ◌≡◌, refl, ap, List, [], ◌∷◌, length, arith, length-append,
  take-append_all, drop-append_all,
}
use msg.Frame.{le_bytes, le_number, pack, unpack, sum}

pub length-le_bytes : (w n : ℕ) → length (le_bytes w n) ≡ w
unfolding le_bytes
length-le_bytes zero n = refl
length-le_bytes (suc w) n = ap suc (length-le_bytes w (n / 256))

-- the least number that does not fit
abbrev pub limit : ℕ → ℕ
limit zero = 1
limit (suc w) = 256 * limit w

pub le_number-le_bytes : (w n : ℕ) → n < limit w → le_number (le_bytes w n) ≡ n
unfolding le_bytes le_number
le_number-le_bytes zero n h = omega arith
le_number-le_bytes (suc w) n h =
    let ih = le_number-le_bytes w (n / 256) (omega arith) in omega (arith, ih)

-- Every value fits its width.
abbrev pub Fits : List ℕ → List ℕ → Type 0
Fits [] [] = Unit
Fits [] (v ∷ vs) = ⊥
Fits (w ∷ ws) [] = ⊥
Fits (w ∷ ws) (v ∷ vs) = (v < limit w) × Fits ws vs

pub unpack-pack : (ws vs : List ℕ) → Fits ws vs → unpack ws (pack ws vs) ≡ vs
unfolding pack unpack
unpack-pack [] [] h = refl
unpack-pack [] (v ∷ vs) h = absurd h
unpack-pack (w ∷ ws) [] h = absurd h
unpack-pack (w ∷ ws) (v ∷ vs) (b, h) =
    let len = length-le_bytes w v in
    rw
      (
        take-append_all w (le_bytes w v) (pack ws vs) len,
        drop-append_all w (le_bytes w v) (pack ws vs) len,
        le_number-le_bytes w v b,
        unpack-pack ws vs h,
      )
      refl

pub length-pack : (ws vs : List ℕ) → Fits ws vs → length (pack ws vs) ≡ sum ws
unfolding pack
length-pack [] [] h = refl
length-pack [] (v ∷ vs) h = absurd h
length-pack (w ∷ ws) [] h = absurd h
length-pack (w ∷ ws) (v ∷ vs) (b, h) =
    omega
      (arith, length-append (le_bytes w v) (pack ws vs), length-le_bytes w v, length-pack ws vs h)
