-- ===== src/Data/RoundTrip.antt =====
-- src/data.rs: `parse(format(x)) == x` for what `new` and `parse` return.
use oxideav_source.Prelude.{
  ◌≡◌, refl, sym, ◌∙◌, ap, inl, inr, Bool, true, false, ◌∷◌, ◌++◌, append_assoc, Bytes, codes,
  if◌then◌else◌, All, contains, contains-append, starts_with, split_once-append, Bool-cases, ok,
}
use oxideav_source.Uri.{split}
use oxideav_source.Uri.Split.{split-scheme, strip_slashes-id, no_slashes-append}
use oxideav_source.Base64.{encode_base64}
use oxideav_source.Base64.Groups.{IsByte}
use oxideav_source.Base64.RoundTrip.{decode-encode}
use oxideav_source.Data.{
  DataUri, marker, strip_base64_suffix, ends_with_base64_marker, percent_encode, format_payload,
  format, read_header, decode_payload, parse_parts, parse,
}
use oxideav_source.Data.Payload.{percent_decode-encode}
use oxideav_source.Data.Header.{strip_base64_suffix-append, strip_base64_suffix-none}

-- The values that the grammar can write: what `new` checks, and a payload of bytes.
pub record IsWritable (d : DataUri) : Type 0 where
  pub no_comma : contains b',' d.mediatype ≡ false
  pub no_marker : d.base64 ≡ false → ends_with_base64_marker d.mediatype ≡ false
  pub no_slashes : starts_with (codes "//") d.mediatype ≡ false
  pub bytes : All IsByte d.payload

-- The written text behind `data:`, as the parser takes it apart.
header_of : DataUri → Bytes
header_of d = if d.base64 then d.mediatype ++ marker else d.mediatype

payload_of : DataUri → Bytes
payload_of d = if d.base64 then encode_base64 d.payload else percent_encode d.payload

split_payload :
    (d : DataUri) (b : Bool)
    → d.base64 ≡ b
    → d.mediatype ++ format_payload b d.payload ≡ header_of d ++ b',' ∷ payload_of d
unfolding format_payload header_of payload_of
split_payload d true e =
    rw e (sym (append_assoc d.mediatype marker (b',' ∷ encode_base64 d.payload)))
split_payload d false e = rw e

header-Lacks : (d : DataUri) → IsWritable d → contains b',' (header_of d) ≡ false
unfolding header_of
header-Lacks d w = elim (Bool-cases d.base64) [
  | inl e ↦ rw (e, contains-append b',' d.mediatype marker, w.no_comma)
  | inr e ↦ rw e w.no_comma
]

header-read :
    (d : DataUri)
    → IsWritable d
    → read_header (header_of d) (strip_base64_suffix (header_of d)) ≡ (d.mediatype, d.base64)
unfolding header_of read_header
header-read d w = elim (Bool-cases d.base64) [
  | inl e ↦ rw (e, strip_base64_suffix-append d.mediatype)
  | inr e ↦ rw (e, strip_base64_suffix-none d.mediatype (w.no_marker e))
]

payload-decode :
    (d : DataUri) → IsWritable d → decode_payload d.base64 (payload_of d) ≡ ok d.payload
unfolding payload_of decode_payload
payload-decode d w = elim (Bool-cases d.base64) [
  | inl e ↦ rw (e, decode-encode d.payload w.bytes)
  | inr e ↦ rw (e, percent_decode-encode d.payload w.bytes)
]

format_payload-no_slash :
    (b : Bool) (s : Bytes) → starts_with (codes "/") (format_payload b s) ≡ false
unfolding format_payload starts_with
format_payload-no_slash true s = refl
format_payload-no_slash false s = refl

format-split :
    (d : DataUri)
    → IsWritable d
    → split (format d) ≡ (codes "data", header_of d ++ b',' ∷ payload_of d)
unfolding format
format-split d w =
    let text = d.mediatype ++ format_payload d.base64 d.payload in
    split-scheme (codes "data") text refl refl
    ∙ ap (λ r. (codes "data", r))
        (strip_slashes-id text (
            no_slashes-append d.mediatype _ w.no_slashes
              (format_payload-no_slash d.base64 d.payload))
          ∙ split_payload d d.base64 refl)

-- A `DataUri` whose payload is bytes and whose mediatype has no comma, does not begin with `//`
-- and, in the percent form, does not end with the base64 marker is read back from its text.
pub DataUri-parse-format : (d : DataUri) → IsWritable d → parse (format d) ≡ ok d
unfolding parse parse_parts
DataUri-parse-format d w = rw (
  format-split d w,
  split_once-append b',' (header_of d) (payload_of d) (header-Lacks d w),
  header-read d w,
  w.no_slashes,
  payload-decode d w,
)
