-- ===== src/Frame.antt =====
-- A message and its frame on the wire: Message::encode and decode_message (src/Message.cc,
-- include/msgr/Message.h), the header and the footer (include/msgr/msgr.h) and write_message
-- (src/async/AsyncConnection.cc). A structure is its fields in the order of their packed little-endian
-- bytes. The checksum, the factory of the messages and what a class of messages does with its payload
-- are parameters.
pub mod Bytes
pub mod Intact
pub mod Layout
mod Examples
use msg.Prelude.{
  ℕ, zero, suc, ◌+◌, ◌*◌, ◌/◌, ◌%◌, ◌^◌, Bool, true, false, not, ◌&&◌, ◌||◌, Option, none, some,
  List, [], ◌∷◌, ◌++◌, length, take, drop, get_or, bit_and, bit_or, ltb, ◌==◌, if◌then◌else◌,
}

-- the `w` bytes of a number, the lowest first
unfoldable pub le_bytes : ℕ → ℕ → List ℕ
le_bytes zero n = []
le_bytes (suc w) n = n % 256 ∷ le_bytes w (n / 256)

unfoldable pub le_number : List ℕ → ℕ
le_number [] = 0
le_number (b ∷ bs) = b + 256 * le_number bs

abbrev pub sum : List ℕ → ℕ
sum [] = 0
sum (w ∷ ws) = w + sum ws

-- the fields of a packed structure with these widths
unfoldable pub pack : List ℕ → List ℕ → List ℕ
pack [] vs = []
pack (w ∷ ws) [] = []
pack (w ∷ ws) (v ∷ vs) = le_bytes w v ++ pack ws vs

unfoldable pub unpack : List ℕ → List ℕ → List ℕ
unpack [] bs = []
unpack (w ∷ ws) bs = le_number (take w bs) ∷ unpack ws (drop w bs)

pub record Header : Type 0 where
  pub seq : ℕ
  pub tid : ℕ
  pub type : ℕ
  pub priority : ℕ
  pub version : ℕ
  pub front_len : ℕ
  pub middle_len : ℕ
  pub data_len : ℕ
  pub data_off : ℕ
  pub src_type : ℕ
  pub src_num : ℕ
  pub compat_version : ℕ
  pub reserved : ℕ
  pub crc : ℕ

pub record Footer : Type 0 where
  pub front_crc : ℕ
  pub middle_crc : ℕ
  pub data_crc : ℕ
  pub sig : ℕ
  pub flags : ℕ

abbrev pub header_widths : List ℕ
header_widths = 8 ∷ (8 ∷ (2 ∷ (2 ∷ (2 ∷ (4 ∷ (4 ∷ (4 ∷ (2 ∷ (1 ∷ (8 ∷ (2 ∷ (2 ∷ (4 ∷ [])))))))))))))

abbrev pub footer_widths : List ℕ
footer_widths = 4 ∷ (4 ∷ (4 ∷ (8 ∷ (1 ∷ []))))

abbrev pub header_size : ℕ
header_size = 53

abbrev pub footer_size : ℕ
footer_size = 21

abbrev pub header_fields : Header → List ℕ
header_fields h =
    h.seq
    ∷ (h.tid
        ∷ (h.type
            ∷ (h.priority
                ∷ (h.version
                    ∷ (h.front_len
                        ∷ (h.middle_len
                            ∷ (h.data_len
                                ∷ (h.data_off
                                    ∷ (h.src_type
                                        ∷ (h.src_num
                                            ∷ (h.compat_version
                                                ∷ (h.reserved ∷ (h.crc ∷ [])))))))))))))

abbrev pub footer_fields : Footer → List ℕ
footer_fields f = f.front_crc ∷ (f.middle_crc ∷ (f.data_crc ∷ (f.sig ∷ (f.flags ∷ []))))

unfoldable pub header_bytes : Header → List ℕ
header_bytes h = pack header_widths (header_fields h)

unfoldable pub footer_bytes : Footer → List ℕ
footer_bytes f = pack footer_widths (footer_fields f)

-- the structure with these fields
abbrev pub header_of : List ℕ → Header
header_of vs = record {
  seq = get_or vs 0 0;
  tid = get_or vs 1 0;
  type = get_or vs 2 0;
  priority = get_or vs 3 0;
  version = get_or vs 4 0;
  front_len = get_or vs 5 0;
  middle_len = get_or vs 6 0;
  data_len = get_or vs 7 0;
  data_off = get_or vs 8 0;
  src_type = get_or vs 9 0;
  src_num = get_or vs 10 0;
  compat_version = get_or vs 11 0;
  reserved = get_or vs 12 0;
  crc = get_or vs 13 0;
}

abbrev pub footer_of : List ℕ → Footer
footer_of vs = record {
  front_crc = get_or vs 0 0;
  middle_crc = get_or vs 1 0;
  data_crc = get_or vs 2 0;
  sig = get_or vs 3 0;
  flags = get_or vs 4 0;
}

unfoldable pub read_header : List ℕ → Header
read_header bs = header_of (unpack header_widths bs)

unfoldable pub read_footer : List ℕ → Footer
read_footer bs = footer_of (unpack footer_widths bs)

pub record Message : Type 0 where
  pub header : Header
  pub footer : Footer
  pub payload : List ℕ
  pub middle : List ℕ
  pub data_bl : List ℕ

-- What the library does not fix: the checksum, the flags of the messenger, the version of a new
-- message of a type (none for an unknown type), and the two virtual methods of a message;
-- decode_payload answers whether it returns without an exception.
pub record Codec : Type 0 where
  pub crc32c : List ℕ → ℕ
  pub crc_header : Bool
  pub crc_data : Bool
  pub make_message : ℕ → Option ℕ
  pub decode_payload : Message → Bool
  pub encode_payload : ℕ → Message → Message

abbrev pub footer_complete : ℕ
footer_complete = 1

abbrev pub footer_nocrc : ℕ
footer_nocrc = 2

module _ (codec : Codec) where
  open codec use {crc32c, crc_header, crc_data, make_message, decode_payload, encode_payload}

  -- calc_header_crc
  unfoldable pub calc_header_crc : Header → Header
  calc_header_crc h = record h { crc = crc32c (take 49 (header_bytes h)) }

  unfoldable pub calc_front_crc : Message → Footer
  calc_front_crc m = record m.footer { front_crc = crc32c m.payload; middle_crc = crc32c m.middle }

  -- the first statement of Message::encode
  unfoldable pub encode_missing : ℕ → Message → Message
  encode_missing features m =
      let e = encode_payload features m in
      let h = e.header in
      elim m.payload [
        | _ ∷ _ ↦ m
        | [] ↦ record e {
          header = record h {
            compat_version = if h.compat_version == 0 then h.version else h.compat_version;
          };
        }
      ]

  -- the lengths in the envelope have 32 bits
  unfoldable pub envelope : Message → Header
  envelope m = record m.header {
    front_len = length m.payload % 2 ^ 32;
    middle_len = length m.middle % 2 ^ 32;
    data_len = length m.data_bl % 2 ^ 32;
  }

  unfoldable pub encode : ℕ → Message → Message
  encode features m0 =
      let m = encode_missing features m0 in
      let f = if crc_header then calc_front_crc m else m.footer in
      let h = envelope m in
      record m {
        header = if crc_header then calc_header_crc h else h;
        footer =
            if crc_data
            then record f { flags = footer_complete; data_crc = crc32c m.data_bl }
            else record f { flags = bit_or footer_complete footer_nocrc };
      }

  -- a new message of a type: its header is set over, its footer stays empty
  abbrev pub no_footer : Footer
  no_footer = record { front_crc = 0; middle_crc = 0; data_crc = 0; sig = 0; flags = 0 }

  -- the checksums of decode_message
  unfoldable pub crc_matches : Footer → List ℕ → List ℕ → List ℕ → Bool
  crc_matches footer front middle data_part =
      let envelope_ok =
        (crc32c front == footer.front_crc) && (crc32c middle == footer.middle_crc) in
      let data_ok =
        not (bit_and footer.flags footer_nocrc == 0) || (crc32c data_part == footer.data_crc) in
      (not crc_header || envelope_ok) && (not crc_data || data_ok)

  unfoldable pub decode_message : Header → Footer → List ℕ → List ℕ → List ℕ → Option Message
  decode_message header footer front middle data_part =
      let m : Message = record {
        header = header;
        footer = no_footer;
        payload = front;
        middle = middle;
        data_bl = data_part;
      } in
      let made = elim (make_message header.type) as (λ r. Option Message) [
        | none ↦ none
        | some version ↦
            if not (version == 0) && ltb version header.compat_version
            then none
            else (if decode_payload m then some m else none)
      ] in
      if crc_matches footer front middle data_part then made else none

-- MSGR_MSGR_TAG_MSG
abbrev pub tag_msg : ℕ
tag_msg = 7

-- the bytes that write_message hands to _try_send
unfoldable pub write_message : Header → Footer → List ℕ → List ℕ
write_message header footer blist =
    ((tag_msg ∷ header_bytes header) ++ blist) ++ footer_bytes footer

-- what _send hands over of an encoded message
unfoldable pub message_bytes : Message → List ℕ
message_bytes m = write_message m.header m.footer (m.payload ++ (m.middle ++ m.data_bl))
