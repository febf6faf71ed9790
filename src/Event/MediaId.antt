-- ===== src/Event/MediaId.antt =====
-- internal/event/media_id.go: the media ID that an event carries and that the download endpoint
-- takes apart again. A Go string and a `[]byte` are both a list of byte values. gzip and base64
-- are parameters.
pub mod Reader
pub mod RoundTrip
use Reader.{Bytes, le_bytes, read_le, read_byte, read_full}
use wsapi_app.Common.{
  ℕ, ◌≡◌, ◌%◌, ◌^◌, Bool, true, ◌||◌, Option, none, some, List, [], ◌∷◌, ◌++◌, length, ltb, eqb,
  if◌then◌else◌, Result, ok, err, ◌>>=◌, ◌>>◌,
}

pub record MediaDownloadInfo : Type 0 where
  pub url : Bytes
  pub direct_path : Bytes
  pub media_key : Bytes
  pub file_sha256 : Bytes
  pub file_enc_sha256 : Bytes
  pub mime_type : Bytes
  pub file_name : Bytes
  pub media_type : Bytes
  pub file_length : ℕ  -- uint64

-- One constructor for each error that the two functions return.
pub data MediaIdError : Type 0 where
  path_too_long field_too_long compress_failed : MediaIdError
  bad_base64 bad_gzip_header bad_gzip_body : MediaIdError
  short_version : MediaIdError
  unsupported_version : ℕ → MediaIdError
  short_url_length short_direct_path_length short_media_key_length : MediaIdError
  short_file_sha256_length short_file_enc_sha256_length short_mime_type_length : MediaIdError
  short_file_name_length short_media_type_length short_file_length : MediaIdError
  short_url short_direct_path short_media_key short_file_sha256 : MediaIdError
  short_file_enc_sha256 short_mime_type short_file_name short_media_type : MediaIdError

-- What the code calls of compress/gzip and encoding/base64. `none` is an error.
pub record Codec : Type 0 where
  pub gzip : Bytes → Option Bytes
  pub gunzip_header : Bytes → Bool
  pub gunzip : Bytes → Option Bytes
  pub base64_encode : Bytes → Bytes
  pub base64_decode : Bytes → Option Bytes

-- The documented behaviour of both packages: reading gives back what was written.
pub record IsCodec (c : Codec) : Type 0 where
  pub gzip_header : (b z : Bytes) → c.gzip b ≡ some z → c.gunzip_header z ≡ true
  pub gzip_body : (b z : Bytes) → c.gzip b ≡ some z → c.gunzip z ≡ some b
  pub base64 : (b : Bytes) → c.base64_decode (c.base64_encode b) ≡ some b

-- The two `Validate lengths` tests.
unfoldable pub check_lengths : MediaDownloadInfo → Result MediaIdError (Unit {0})
check_lengths info =
    if ltb 65535 (length info.url) || ltb 65535 (length info.direct_path)
    then err path_too_long
    else if ltb 255 (length info.media_key)
        || (ltb 255 (length info.file_sha256)
            || (ltb 255 (length info.file_enc_sha256)
                || (ltb 255 (length info.mime_type)
                    || (ltb 255 (length info.file_name) || ltb 255 (length info.media_type)))))
    then err field_too_long
    else ok tt

-- What is written to `buf`, from the version byte to the media type. The conversions
-- `uint16(…)` and `byte(…)` are written out.
unfoldable pub write_body : MediaDownloadInfo → Bytes
write_body info =
    1
    ∷ (le_bytes 2 (length info.url % 2 ^ 16)
        ++ (le_bytes 2 (length info.direct_path % 2 ^ 16)
            ++ (length info.media_key % 256)
              ∷ (length info.file_sha256 % 256)
              ∷ (length info.file_enc_sha256 % 256)
              ∷ (length info.mime_type % 256)
              ∷ (length info.file_name % 256)
              ∷ (length info.media_type % 256)
              ∷ (le_bytes 8 info.file_length
                  ++ (info.url
                      ++ (info.direct_path
                          ++ (info.media_key
                              ++ (info.file_sha256
                                  ++ (info.file_enc_sha256
                                      ++ (info.mime_type
                                          ++ (info.file_name ++ info.media_type))))))))))

-- The reads of `DecodeMediaID` from the decompressed bytes, in the order of the source.
unfoldable pub read_body : Bytes → Result MediaIdError MediaDownloadInfo
read_body bs = do
  (version, bs) ← read_byte short_version bs
  if eqb version 1 then ok tt else err (unsupported_version version)
  (url_len, bs) ← read_le short_url_length 2 bs
  (direct_path_len, bs) ← read_le short_direct_path_length 2 bs
  (media_key_len, bs) ← read_byte short_media_key_length bs
  (file_sha256_len, bs) ← read_byte short_file_sha256_length bs
  (file_enc_sha256_len, bs) ← read_byte short_file_enc_sha256_length bs
  (mime_type_len, bs) ← read_byte short_mime_type_length bs
  (file_name_len, bs) ← read_byte short_file_name_length bs
  (media_type_len, bs) ← read_byte short_media_type_length bs
  (file_length, bs) ← read_le short_file_length 8 bs
  (url, bs) ← read_full short_url url_len bs
  (direct_path, bs) ← read_full short_direct_path direct_path_len bs
  (media_key, bs) ← read_full short_media_key media_key_len bs
  (file_sha256, bs) ← read_full short_file_sha256 file_sha256_len bs
  (file_enc_sha256, bs) ← read_full short_file_enc_sha256 file_enc_sha256_len bs
  (mime_type, bs) ← read_full short_mime_type mime_type_len bs
  (file_name, bs) ← read_full short_file_name file_name_len bs
  (media_type, bs) ← read_full short_media_type media_type_len bs
  ok (record {
    url = url;
    direct_path = direct_path;
    media_key = media_key;
    file_sha256 = file_sha256;
    file_enc_sha256 = file_enc_sha256;
    mime_type = mime_type;
    file_name = file_name;
    media_type = media_type;
    file_length = file_length;
  })

-- An error value made of an absent result.
abbrev pub or_err : {A : Type 0} → Option A → MediaIdError → Result MediaIdError A
or_err none e = err e
or_err (some a) e = ok a

module _ (c : Codec) where
  unfoldable pub encode_media_id : MediaDownloadInfo → Result MediaIdError Bytes
  encode_media_id info = do
    check_lengths info
    compressed ← or_err (c.gzip (write_body info)) compress_failed
    ok (c.base64_encode compressed)

  unfoldable pub decode_media_id : Bytes → Result MediaIdError MediaDownloadInfo
  decode_media_id encoded = do
    compressed ← or_err (c.base64_decode encoded) bad_base64
    if c.gunzip_header compressed then ok tt else err bad_gzip_header
    decompressed ← or_err (c.gunzip compressed) bad_gzip_body
    read_body decompressed

  -- `createMediaID`: an ID that cannot be made is the empty string. A nil slice is the empty one.
  unfoldable pub create_media_id : MediaDownloadInfo → Bytes
  create_media_id info = elim (encode_media_id info) [ ok encoded ↦ encoded | err _ ↦ [] ]
