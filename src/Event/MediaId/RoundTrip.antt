-- ===== src/Event/MediaId/RoundTrip.antt =====
-- A media ID decodes to the download information that it was made of.
use wsapi_app.Common.{◌≤◌, ◌<◌, ◌≡◌, ◌^◌, refl, Option, none, some, length, arith, ok, >>=-eq-ok}
use wsapi_app.Event.MediaId.Reader.{
  Bytes, read_byte, read_le-le_bytes, read_full-append, read_full_self, byte_exact, word_exact,
}
use wsapi_app.Event.MediaId.{
  MediaDownloadInfo, MediaIdError, compress_failed, short_url_length, short_direct_path_length,
  short_file_length, Codec, IsCodec, check_lengths, write_body, read_body, or_err, encode_media_id,
  decode_media_id,
}

-- The lengths that the format has room for.
pub record IsEncodable (info : MediaDownloadInfo) : Type 0 where
  pub url : length info.url ≤ 65535
  pub direct_path : length info.direct_path ≤ 65535
  pub media_key : length info.media_key ≤ 255
  pub file_sha256 : length info.file_sha256 ≤ 255
  pub file_enc_sha256 : length info.file_enc_sha256 ≤ 255
  pub mime_type : length info.mime_type ≤ 255
  pub file_name : length info.file_name ≤ 255
  pub media_type : length info.media_type ≤ 255

pub check_lengths-IsEncodable :
    (info : MediaDownloadInfo) → check_lengths info ≡ ok tt → IsEncodable info
unfolding check_lengths
check_lengths-IsEncodable info h = ground arith

pub IsEncodable-check_lengths :
    (info : MediaDownloadInfo) → IsEncodable info → check_lengths info ≡ ok tt
unfolding check_lengths
IsEncodable-check_lengths info h = ground arith

pub read_body-write_body :
    (info : MediaDownloadInfo)
    → IsEncodable info
    → info.file_length < 2 ^ 64
    → read_body (write_body info) ≡ ok info
unfolding read_body write_body read_byte
read_body-write_body info e fits =
    simp
      (
        word_exact _ e.url,
        word_exact _ e.direct_path,
        byte_exact _ e.media_key,
        byte_exact _ e.file_sha256,
        byte_exact _ e.file_enc_sha256,
        byte_exact _ e.mime_type,
        byte_exact _ e.file_name,
        byte_exact _ e.media_type,
        read_le-le_bytes short_url_length 2 (length info.url) _ (omega (arith, e.url)),
        read_le-le_bytes short_direct_path_length 2 (length info.direct_path) _
            (omega (arith, e.direct_path)),
        read_le-le_bytes short_file_length 8 info.file_length _ fits,
        read_full-append,
        read_full_self,
      )
      refl

or_err-eq-ok :
    {A : Type 0} (o : Option A) (e : MediaIdError) {a : A} → or_err o e ≡ ok a → o ≡ some a
or_err-eq-ok none e h = cc
or_err-eq-ok (some b) e h = cc

-- Whatever is encoded decodes to itself: for every codec that reads back what it wrote, and every
-- information whose file length is a uint64, an ID that `EncodeMediaID` returns is decoded by
-- `DecodeMediaID` to the same information, with no field lost or truncated.
pub decode-encode :
    (c : Codec) (info : MediaDownloadInfo) (encoded : Bytes)
    → IsCodec c
    → info.file_length < 2 ^ 64
    → encode_media_id c info ≡ ok encoded
    → decode_media_id c encoded ≡ ok info
unfolding encode_media_id decode_media_id
decode-encode c info encoded laws fits h =
    let (u, checked, h1) = >>=-eq-ok (check_lengths info) _ h in
    let (z, zipped, h2) = >>=-eq-ok (or_err (c.gzip (write_body info)) compress_failed) _ h1 in
    let written : c.gzip (write_body info) ≡ some z = or_err-eq-ok _ _ zipped in
    let sent : c.base64_encode z ≡ encoded = cc in
    let whole = read_body-write_body info (check_lengths-IsEncodable info (cc)) fits in
    rw
      (
        ← sent,
        laws.base64 z,
        laws.gzip_header (write_body info) z written,
        laws.gzip_body (write_body info) z written,
      )
      whole
