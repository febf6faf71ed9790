-- ===== src/Media/Tests.antt =====
-- The theorem about downloads at a small picture, with encodings that put one byte in front.
use wsapi_app.Common.{ℕ, ◌≡◌, ◌≤◌, refl, true, Option, some, [], ◌∷◌, length, arith, ok}
use wsapi_app.Event.MediaId.{MediaDownloadInfo, write_body, read_body, decode_media_id}
use wsapi_app.Event.MediaId.Reader.{Bytes, le_bytes, read_byte, read_le, read_full}
use wsapi_app.Event.Samples.{codec, picture}
use wsapi_app.Media.{
  MediaDownloadResult, DownloadableMessage, Downloader, build_downloadable_message, decoded,
  download_by_id, generate_filename,
}
use wsapi_app.Media.Limit.{download_within_limit}

abbrev media_id : Bytes
media_id = 64 ∷ 31 ∷ write_body picture

abbrev downloader : Downloader
downloader = record {
  codec = codec;
  text_of = λ bs. "image";
  contains = λ s t. true;
  slot_free = true;
  download = λ msg. some (1 ∷ 2 ∷ 3 ∷ []);
  temp_file_ok = true;
  timestamp = "20250101_000000";
}

abbrev file : MediaDownloadResult
file = record { body = 1 ∷ 2 ∷ 3 ∷ []; size = 3; filename = "image"; mime_type = picture.mime_type }

download_within_limit_example :
    (info : MediaDownloadInfo) × (msg : DownloadableMessage) × (decoded downloader media_id
      ≡ ok info)
    × (build_downloadable_message "image" info ≡ some msg)
    × (◌≡◌ {A = Option Bytes} (some (1 ∷ 2 ∷ 3 ∷ [])) (some file.body))
    × (info.file_length ≤ 100000)
    × (length file.body ≤ 100000)
    × (◌≡◌ {A = ℕ} 3 (length file.body))
unfolding download_by_id decoded decode_media_id read_body read_byte read_le read_full write_body
    build_downloadable_message generate_filename le_bytes
download_within_limit_example =
    download_within_limit downloader 100000 media_id file (omega arith) (omega arith) refl
