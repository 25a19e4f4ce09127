-- ===== src/Armor/Examples.antt =====
-- The theorems of the armor at concrete texts.
use msg.Prelude.{ℕ, ◌≡◌, refl, arith, none, some, List}
use msg.Armor.{codes, armor_line_break, armor_loop, set_dst, encode_bits, quad2, quad3, ok, unarmor}
use msg.Armor.Width.{text, fits, armor_line_break-text}
use msg.Armor.RoundTrip.{unarmor-armor_line_break}

abbrev plain_text : List ℕ
plain_text = codes "hello"

abbrev armored : List ℕ
armored = codes "aGVs\nbG8=\n"

encoded : armor_line_break 4 10 plain_text ≡ some (armored, 10)
unfolding armor_line_break armor_loop set_dst quad2 quad3 encode_bits
encoded = refl

-- The destination is one byte short.
short : armor_line_break 4 9 plain_text ≡ none
unfolding armor_line_break armor_loop set_dst quad2 quad3
short = refl

unarmor-armor_line_break_example : unarmor 5 armored ≡ ok plain_text 5
unarmor-armor_line_break_example =
    unarmor-armor_line_break 4 10 5 plain_text armored 10
      (omega arith, (omega arith, (omega arith, (omega arith, (omega arith, tt))))) (omega arith)
      encoded

armor_line_break-text_example : armor_line_break 4 10 plain_text ≡ fits (text 4 0 plain_text) 10
armor_line_break-text_example = armor_line_break-text 4 10 plain_text
