-- ===== src/Frame/Examples.antt =====
-- The theorem of decode_message at a message.
use msg.Prelude.{◌≡◌, refl, true, some, none, [], ◌∷◌, length, bit_and, ◌==◌, if◌then◌else◌}
use msg.Frame.{Header, Footer, Message, Codec, footer_nocrc, decode_message, crc_matches}
use msg.Frame.Intact.{Accepted, parts, decode_message_lem}

-- A checksum that counts; messages of type 42 are known.
abbrev counting : Codec
counting = record {
  crc32c = λ bs. length bs;
  crc_header = true;
  crc_data = true;
  make_message = λ t. if t == 42 then some 1 else none;
  decode_payload = λ m. true;
  encode_payload = λ f m. m;
}

abbrev header : Header
header = record {
  seq = 5;
  tid = 1;
  type = 42;
  priority = 127;
  version = 1;
  front_len = 2;
  middle_len = 0;
  data_len = 1;
  data_off = 0;
  src_type = 8;
  src_num = 3;
  compat_version = 1;
  reserved = 0;
  crc = 49;
}

abbrev footer : Footer
footer = record { front_crc = 2; middle_crc = 0; data_crc = 1; sig = 0; flags = 1 }

abbrev made : Message
made = parts counting header (1 ∷ (2 ∷ [])) [] (7 ∷ [])

decodes : decode_message counting header footer (1 ∷ (2 ∷ [])) [] (7 ∷ []) ≡ some made
unfolding decode_message crc_matches
decodes = refl

decode_message_lem_example :
    (made ≡ made)
    × Accepted counting made
    × (true ≡ true → (2 ≡ footer.front_crc) × (0 ≡ footer.middle_crc))
    × (true ≡ true → bit_and footer.flags footer_nocrc ≡ 0 → 1 ≡ footer.data_crc)
decode_message_lem_example =
    decode_message_lem counting header footer (1 ∷ (2 ∷ [])) [] (7 ∷ []) made decodes
