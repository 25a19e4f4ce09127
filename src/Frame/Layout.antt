-- ===== src/Frame/Layout.antt =====
-- The header and the footer in their bytes (include/msgr/msgr.h).
use msg.Prelude.{ℕ, ◌≡◌, refl, ap, length, take}
use msg.Frame.{
  Header, Footer, header_widths, footer_widths, header_fields, footer_fields, header_bytes,
  footer_bytes, header_of, footer_of, read_header, read_footer, pack, le_bytes, header_size,
  footer_size,
}
use msg.Frame.Bytes.{Fits, unpack-pack, length-pack}

-- Every field of the structure fits its type.
abbrev pub HeaderFits : Header → Type 0
HeaderFits h = Fits header_widths (header_fields h)

abbrev pub FooterFits : Footer → Type 0
FooterFits f = Fits footer_widths (footer_fields f)

pub read_header-header_bytes : (h : Header) → HeaderFits h → read_header (header_bytes h) ≡ h
unfolding read_header header_bytes
read_header-header_bytes h b = ap header_of (unpack-pack header_widths (header_fields h) b)

pub read_footer-footer_bytes : (f : Footer) → FooterFits f → read_footer (footer_bytes f) ≡ f
unfolding read_footer footer_bytes
read_footer-footer_bytes f b = ap footer_of (unpack-pack footer_widths (footer_fields f) b)

pub length-header_bytes : (h : Header) → HeaderFits h → length (header_bytes h) ≡ header_size
unfolding header_bytes
length-header_bytes h b = length-pack header_widths (header_fields h) b

pub length-footer_bytes : (f : Footer) → FooterFits f → length (footer_bytes f) ≡ footer_size
unfolding footer_bytes
length-footer_bytes f b = length-pack footer_widths (footer_fields f) b

-- The checksum of the header is about the bytes before it.
pub take-header_bytes :
    (h : Header) (c : ℕ) → take 49 (header_bytes (record h { crc = c })) ≡ take 49 (header_bytes h)
unfolding header_bytes pack le_bytes
take-header_bytes h c = refl
