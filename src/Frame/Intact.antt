-- ===== src/Frame/Intact.antt =====
-- What decode_message accepts (src/Message.cc).
use msg.Prelude.{
  ℕ, ◌≡◌, refl, sym, subst, Bool, true, false, not, ◌&&◌, Option, none, some, List, bit_and, ltb,
  ◌==◌, if◌then◌else◌, arith, Bool-cases, inl, inr,
}
use msg.Frame.{
  Header, Footer, Message, Codec, footer_nocrc, no_footer, encode, encode_missing, calc_front_crc,
  crc_matches, decode_message,
}

some_if :
    (b : Bool) (x : Option Message) (m : Message)
    → (if b then x else none) ≡ some m
    → (b ≡ true) × (x ≡ some m)
some_if true x m e = (refl, e)
some_if false x m e = absurd (cc)

some_unless :
    (b : Bool) (x : Option Message) (m : Message)
    → (if b then none else x) ≡ some m
    → (b ≡ false) × (x ≡ some m)
some_unless true x m e = absurd (cc)
some_unless false x m e = (refl, e)

module _ (codec : Codec) where
  open codec use {crc32c, crc_header, crc_data, make_message, decode_payload, encode_payload}

  -- The class of a message accepts it: its type is known, not too old for the message, and its payload
  -- decodes.
  pub record Accepted (m : Message) : Type 0 where
    pub version : ℕ
    pub known : make_message m.header.type ≡ some version
    pub recent : (not (version == 0) && ltb version m.header.compat_version) ≡ false
    pub decodes : decode_payload m ≡ true

  -- the message that decode_message makes of its parts
  abbrev pub parts : Header → List ℕ → List ℕ → List ℕ → Message
  parts h front middle rest = record {
    header = h;
    footer = no_footer codec;
    payload = front;
    middle = middle;
    data_bl = rest;
  }

  test_same : (n : ℕ) → (n == n) ≡ true
  test_same n = ground arith

  pub decode_message-Accepted :
      (h : Header) (f : Footer) (front middle rest : List ℕ)
      → crc_matches codec f front middle rest ≡ true
      → Accepted (parts h front middle rest)
      → decode_message codec h f front middle rest ≡ some (parts h front middle rest)
  unfolding decode_message
  decode_message-Accepted h f front middle rest c a = rw (c, a.known, a.recent, a.decodes) refl

  -- The checksums of an encoded message match, whichever of them the messenger makes.
  pub crc_matches-encode :
      (features : ℕ) (m : Message)
      → let e = encode codec features m in
        crc_matches codec e.footer e.payload e.middle e.data_bl ≡ true
  unfolding crc_matches encode calc_front_crc encode_missing
  crc_matches-encode features m = elim (Bool-cases crc_header) [
    | inl h ↦ elim (Bool-cases crc_data) [
      | inl d ↦
          rw
            (
              h,
              d,
              test_same (crc32c e.payload),
              test_same (crc32c e.middle),
              test_same (crc32c e.data_bl),
            )
            refl
      | inr d ↦ rw (h, d, test_same (crc32c e.payload), test_same (crc32c e.middle)) refl
    ]
    | inr h ↦ elim (Bool-cases crc_data) [
      | inl d ↦ rw (h, d, test_same (crc32c e.data_bl)) refl
      | inr d ↦ rw (h, d) refl
    ]
  ]
    where
      e : Message
      e = encode_missing codec features m

  -- What the tests of the checksums say.
  matches_lem :
      (f : Footer) (front middle rest : List ℕ)
      → crc_matches codec f front middle rest ≡ true
      → (crc_header ≡ true → (crc32c front ≡ f.front_crc) × (crc32c middle ≡ f.middle_crc))
        × (crc_data ≡ true → bit_and f.flags footer_nocrc ≡ 0 → crc32c rest ≡ f.data_crc)
  unfolding crc_matches
  matches_lem f front middle rest e = (λ h. (ground arith, ground arith), λ d z. ground arith)

  -- A message that decode_message makes has the checksums that the messenger asks for: those of front and
  -- middle with MSG_CRC_HEADER, that of the data with MSG_CRC_DATA unless the footer says that there is
  -- none; its class accepts it, and it consists of the parts that were read.
  pub decode_message_lem :
      (h : Header) (f : Footer) (front middle rest : List ℕ) (m : Message)
      → decode_message codec h f front middle rest ≡ some m
      → (m ≡ parts h front middle rest)
        × Accepted m
        × (crc_header ≡ true → (crc32c front ≡ f.front_crc) × (crc32c middle ≡ f.middle_crc))
        × (crc_data ≡ true → bit_and f.flags footer_nocrc ≡ 0 → crc32c rest ≡ f.data_crc)
  unfolding decode_message
  decode_message_lem h f front middle rest m e =
      let (c, made) = some_if (crc_matches codec f front middle rest) _ m e in
      let (same, a) = of_class (make_message h.type) refl made in
      let (hs, ds) = matches_lem f front middle rest c in
      (same, subst Accepted (sym same) a, hs, ds)
    where
      of_class :
          (v : Option ℕ)
          → make_message h.type ≡ v
          → (elim v as (λ r. Option Message) [
            | none ↦ none
            | some version ↦
                if not (version == 0) && ltb version h.compat_version
                then none
                else (if decode_payload (parts h front middle rest)
                    then some (parts h front middle rest)
                    else none)
          ])
            ≡ some m
          → (m ≡ parts h front middle rest) × Accepted (parts h front middle rest)
      of_class none k made = absurd (cc)
      of_class (some version) k made =
          let (old, r) =
            some_unless (not (version == 0) && ltb version h.compat_version) _ m made in
          let (ok, same) = some_if (decode_payload (parts h front middle rest)) _ m r in
          (cc, record { version = version; known = k; recent = old; decodes = ok })
