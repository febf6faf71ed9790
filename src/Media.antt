-- ===== src/Media.antt =====
-- internal/whatsapp/media.go: the download of a media file by its ID. The file ends up in the result
-- as its bytes; the temporary file that holds them is not modelled, but its errors are.
pub mod Limit
mod Tests
use Prim.Native.String.{◌++◌}
use wsapi_app.Common.{
  ℕ, Bool, true, false, not, ◌&&◌, ◌||◌, ◌^◌, String, ◌==◌, Option, none, some, List, [], ◌∷◌,
  length, ltb, if◌then◌else◌, Result, ok, err, ◌>>=◌, ◌>>◌,
}
use wsapi_app.Event.MediaId.{MediaDownloadInfo, Codec, decode_media_id}
use wsapi_app.Event.MediaId.Reader.{Bytes}

pub data MediaError : Type 0 where
  bad_media_id too_large unsupported_media_type context_done : MediaError
  download_failed downloaded_too_large temp_file_failed : MediaError

-- The concrete type of the message that is handed to the client; all carry the same parts of the
-- media information, a document its file name too.
pub data MediaKind : Type 0 where
  image_message video_message document_message sticker_message : MediaKind
  audio_message : Bool → MediaKind

pub record DownloadableMessage : Type 0 where
  pub kind : MediaKind
  pub url : Bytes
  pub direct_path : Bytes
  pub media_key : Bytes
  pub mime_type : Bytes
  pub file_length : ℕ
  pub file_sha256 : Bytes
  pub file_enc_sha256 : Bytes
  pub file_name : Option Bytes

pub record MediaDownloadResult : Type 0 where
  pub body : Bytes
  pub size : ℕ
  pub filename : String
  pub mime_type : Bytes

-- What a download depends on: the texts that bytes stand for, a slot that is free before the context
-- is done, the client, the file system, and the time stamp. The limit is an int64, and the length of
-- the downloaded data fits into one.
pub record Downloader : Type 0 where
  pub codec : Codec
  pub text_of : Bytes → String
  pub contains : String → String → Bool
  pub slot_free : Bool
  pub download : DownloadableMessage → Option Bytes
  pub temp_file_ok : Bool
  pub timestamp : String

-- `m.maxFileSize > 0` for the residue of an int64
abbrev pub has_limit : ℕ → Bool
has_limit max_file_size = ltb 0 max_file_size && ltb max_file_size (2 ^ 63)

abbrev pub with_kind : MediaKind → MediaDownloadInfo → DownloadableMessage
with_kind kind info = record {
  kind = kind;
  url = info.url;
  direct_path = info.direct_path;
  media_key = info.media_key;
  mime_type = info.mime_type;
  file_length = info.file_length;
  file_sha256 = info.file_sha256;
  file_enc_sha256 = info.file_enc_sha256;
  file_name = none;
}

-- `buildDownloadableMessage`, given the text of the media type.
unfoldable pub build_downloadable_message : String → MediaDownloadInfo → Option DownloadableMessage
build_downloadable_message media_type info =
    if media_type == "image"
    then some (with_kind image_message info)
    else if media_type == "video"
    then some (with_kind video_message info)
    else if media_type == "audio" || media_type == "voice"
    then some (with_kind (audio_message (media_type == "voice")) info)
    else if media_type == "document"
    then some (record (with_kind document_message info) { file_name = some info.file_name })
    else if media_type == "sticker"
    then some (with_kind sticker_message info)
    else none

module _ (d : Downloader) where
  -- The extension that `generateFilename` chooses.
  unfoldable pub extension : String → String → String
  extension media_type mime_type =
      if media_type == "image"
      then (if d.contains mime_type "jpeg" || d.contains mime_type "jpg"
          then ".jpg"
          else if d.contains mime_type "png"
          then ".png"
          else if d.contains mime_type "webp"
          then ".webp"
          else ".jpg")
      else if media_type == "video"
      then (if d.contains mime_type "mp4"
          then ".mp4"
          else if d.contains mime_type "avi"
          then ".avi"
          else if d.contains mime_type "mov"
          then ".mov"
          else ".mp4")
      else if media_type == "audio" || media_type == "voice"
      then (if d.contains mime_type "ogg"
          then ".ogg"
          else if d.contains mime_type "mp3"
          then ".mp3"
          else if d.contains mime_type "wav"
          then ".wav"
          else ".ogg")
      else if media_type == "document"
      then (if d.contains mime_type "pdf"
          then ".pdf"
          else if d.contains mime_type "zip"
          then ".zip"
          else if d.contains mime_type "excel" || d.contains mime_type "spreadsheet"
          then ".xlsx"
          else if d.contains mime_type "word" || d.contains mime_type "document"
          then ".docx"
          else ".bin")
      else if media_type == "sticker"
      then ".webp"
      else ".bin"

  -- `generateFilename`
  unfoldable pub generate_filename : String → String → String → String
  generate_filename media_type mime_type original =
      if not (original == "")
      then original
      else "whatsapp_media_" ++ (d.timestamp ++ extension media_type mime_type)

  abbrev pub guard : Bool → MediaError → Result MediaError (Unit {0})
  guard b e = if b then ok tt else err e

  abbrev pub require : {A : Type 0} → Option A → MediaError → Result MediaError A
  require none e = err e
  require (some a) e = ok a

  -- `event.DecodeMediaID`, whose error is wrapped.
  unfoldable pub decoded : Bytes → Result MediaError MediaDownloadInfo
  decoded media_id = elim (decode_media_id d.codec media_id) [
    | ok info ↦ ok info
    | err _ ↦ err bad_media_id
  ]

  -- `DownloadByID` under a limit.
  unfoldable pub download_by_id : ℕ → Bytes → Result MediaError MediaDownloadResult
  download_by_id max_file_size media_id = do
    info ← decoded media_id
    guard (not (has_limit max_file_size && ltb max_file_size info.file_length)) too_large
    msg ←
        require (build_downloadable_message (d.text_of info.media_type) info) unsupported_media_type
    guard d.slot_free context_done
    payload ← require (d.download msg) download_failed
    guard (not (has_limit max_file_size && ltb max_file_size (length payload))) downloaded_too_large
    guard d.temp_file_ok temp_file_failed
    ok (record {
      body = payload;
      size = length payload;
      filename =
          generate_filename (d.text_of info.media_type) (d.text_of info.mime_type)
            (d.text_of info.file_name);
      mime_type = info.mime_type;
    })
