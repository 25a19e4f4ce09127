-- ===== src/Armor/Bits.antt =====
-- The bit operations of src/armor.c on bytes as arithmetic, and its two tables against each other.
use msg.Prelude.{
  ℕ, zero, suc, ◌+◌, ◌*◌, ◌/◌, ◌%◌, ◌<◌, ◌≡◌, refl, Bool, true, ◌&&◌, not, Option, none, some,
  bit_and, bit_or, arith, ◌==◌, false,
}
use msg.Armor.{encode_bits, decode_bits}

all_below : ℕ → (ℕ → Bool) → Bool
all_below zero p = true
all_below (suc n) p = p n && all_below n p

below_all : (n : ℕ) (p : ℕ → Bool) → all_below n p ≡ true → (x : ℕ) → x < n → p x ≡ true
unfolding all_below
below_all zero p h x b = absurd (omega arith)
below_all (suc n) p h x b = ground (arith, below_all n p (ground arith) x)

eq_of_test : (a b : ℕ) → (a == b) ≡ true → a ≡ b
eq_of_test a b h = ground arith

table : (n : ℕ) (f g : ℕ → ℕ) → all_below n (λ x. f x == g x) ≡ true → (x : ℕ) → x < n → f x ≡ g x
table n f g h x b = eq_of_test (f x) (g x) (below_all n (λ x. f x == g x) h x b)

pub low2 : (a : ℕ) → a < 256 → bit_and a 3 ≡ a % 4
unfolding all_below
low2 = table 256 (λ x. bit_and x 3) (λ x. x % 4) refl

pub low4 : (a : ℕ) → a < 256 → bit_and a 15 ≡ a % 16
unfolding all_below
low4 = table 256 (λ x. bit_and x 15) (λ x. x % 16) refl

pub low6 : (a : ℕ) → a < 256 → bit_and a 63 ≡ a % 64
unfolding all_below
low6 = table 256 (λ x. bit_and x 63) (λ x. x % 64) refl

join16_table : (n : ℕ) → n < 256 → bit_or (n / 16 * 16) (n % 16) ≡ n
unfolding all_below
join16_table = table 256 (λ n. bit_or (n / 16 * 16) (n % 16)) (λ n. n) refl

pub join16 : (x y : ℕ) → x < 16 → y < 16 → bit_or (x * 16) y ≡ x * 16 + y
join16 x y hx hy =
    let q : (x * 16 + y) / 16 ≡ x = omega arith in
    let r : (x * 16 + y) % 16 ≡ y = omega arith in
    rw (q, r) at (join16_table (x * 16 + y) (omega arith))

join4_table : (n : ℕ) → n < 256 → bit_or (n / 4 * 4) (n % 4) ≡ n
unfolding all_below
join4_table = table 256 (λ n. bit_or (n / 4 * 4) (n % 4)) (λ n. n) refl

pub join4 : (x y : ℕ) → x < 64 → y < 4 → bit_or (x * 4) y ≡ x * 4 + y
join4 x y hx hy =
    let q : (x * 4 + y) / 4 ≡ x = omega arith in
    let r : (x * 4 + y) % 4 ≡ y = omega arith in
    rw (q, r) at (join4_table (x * 4 + y) (omega arith))

join64_table : (n : ℕ) → n < 256 → bit_or (n / 64 * 64) (n % 64) ≡ n
unfolding all_below
join64_table = table 256 (λ n. bit_or (n / 64 * 64) (n % 64)) (λ n. n) refl

pub join64 : (x y : ℕ) → x < 4 → y < 64 → bit_or (x * 64) y ≡ x * 64 + y
join64 x y hx hy =
    let q : (x * 64 + y) / 64 ≡ x = omega arith in
    let r : (x * 64 + y) % 64 ≡ y = omega arith in
    rw (q, r) at (join64_table (x * 64 + y) (omega arith))

holds : Option ℕ → ℕ → Bool
holds none x = false
holds (some y) x = x == y

eq_of_holds : (o : Option ℕ) (x : ℕ) → holds o x ≡ true → o ≡ some x
unfolding holds
eq_of_holds none x h = cc
eq_of_holds (some y) x h = ground arith

alphabet : all_below 64 (λ x. holds (decode_bits (encode_bits x)) x) ≡ true
unfolding all_below holds decode_bits encode_bits
alphabet = refl

-- The alphabet decodes to the value that it encodes, and has no '=' and no line break.
pub decode_bits-encode_bits : (x : ℕ) → x < 64 → decode_bits (encode_bits x) ≡ some x
decode_bits-encode_bits x b = eq_of_holds _ x (below_all 64 _ alphabet x b)

plain : all_below 64 (λ x. not (encode_bits x == b'=') && not (encode_bits x == b'\n')) ≡ true
unfolding all_below encode_bits
plain = refl

both_false : (p q : Bool) → (not p && not q) ≡ true → (p ≡ false) × (q ≡ false)
both_false p q h = ground arith

pub encode_bits_plain :
    (x : ℕ) → x < 64 → ((encode_bits x == b'=') ≡ false) × ((encode_bits x == b'\n') ≡ false)
encode_bits_plain x b = both_false _ _ (below_all 64 _ plain x b)
