-- ===== src/Projector/Messages/Media.antt =====
-- The sub-projectors of media messages. `Texts` and the codec of the media ID are parameters.
use wsapi_app.Common.{Bool, true, String, Option, some, [], if◌then◌else◌}
use wsapi_app.Whatsmeow.{WaTypes}
use wsapi_app.Whatsmeow.Proto.{
  get_text, get_bool, get_number, MediaFile, ImageMessage, VideoMessage, AudioMessage,
  DocumentMessage, StickerMessage,
}
use wsapi_app.Event.MediaId.{Codec, MediaDownloadInfo, create_media_id}
use wsapi_app.Event.MediaId.Reader.{Bytes}
use wsapi_app.Event.Types.{MessageEvent, MediaInfo}
use wsapi_app.Projector.{ProjectorContext}
use wsapi_app.Projector.Messages.Context.{project_context_info}

-- A Go string as the bytes that it consists of, and back.
pub record Texts : Type 0 where
  pub bytes_of : String → Bytes
  pub text_of : Bytes → String

-- What `createMediaID` is called with, for the file name and the kind of media.
unfoldable pub download_info : Texts → MediaFile → String → String → MediaDownloadInfo
download_info t file file_name media_type = record {
  url = t.bytes_of (get_text file.url);
  direct_path = t.bytes_of (get_text file.direct_path);
  media_key = file.media_key;
  file_sha256 = file.file_sha256;
  file_enc_sha256 = file.file_enc_sha256;
  mime_type = t.bytes_of (get_text file.mimetype);
  file_name = t.bytes_of file_name;
  media_type = t.bytes_of media_type;
  file_length = get_number file.file_length;
}

-- The fields that all media have, with the media ID.
unfoldable pub media_info : Texts → Codec → MediaFile → String → String → MediaInfo
media_info t c file file_name media_type = record {
  id = t.text_of (create_media_id c (download_info t file file_name media_type));
  media_type = media_type;
  mime_type = get_text file.mimetype;
  file_length = get_number file.file_length;
  caption = "";
  height = 0;
  width = 0;
  duration = 0;
  filename = "";
  title = "";
  page_count = 0;
  jpeg_thumbnail = [];
}

abbrev pub set_view_once : Option Bool → MessageEvent → MessageEvent
set_view_once view_once result = record result {
  view_once = if get_bool view_once then true else result.view_once;
}

abbrev pub set_media : MediaInfo → MessageEvent → MessageEvent
set_media media result = record result { media = some media; type = "media" }

module _ (wt : WaTypes) (t : Texts) (c : Codec) where
  -- `projectImageMessage`
  unfoldable pub project_image_message :
      ImageMessage → MessageEvent → ProjectorContext → MessageEvent
  project_image_message m result pctx =
      set_media
        (record (media_info t c m.file "" "image") {
          caption = get_text m.caption;
          height = get_number m.height;
          width = get_number m.width;
          jpeg_thumbnail = m.jpeg_thumbnail;
        })
        (set_view_once m.view_once (project_context_info wt m.context_info result pctx))

  -- `projectVideoMessage`
  unfoldable pub project_video_message :
      VideoMessage → MessageEvent → ProjectorContext → MessageEvent
  project_video_message m result pctx =
      set_media
        (record (media_info t c m.file "" "video") {
          caption = get_text m.caption;
          height = get_number m.height;
          width = get_number m.width;
          duration = get_number m.seconds;
          jpeg_thumbnail = m.jpeg_thumbnail;
        })
        (set_view_once m.view_once (project_context_info wt m.context_info result pctx))

  -- `projectAudioMessage`: a voice message is not marked as one that is viewed once.
  unfoldable pub project_audio_message :
      AudioMessage → MessageEvent → ProjectorContext → MessageEvent
  project_audio_message m result pctx =
      let media_type : String = if get_bool m.ptt then "voice" else "audio" in
      set_media (record (media_info t c m.file "" media_type) { duration = get_number m.seconds })
        (project_context_info wt m.context_info result pctx)

  -- `projectDocumentMessage`
  unfoldable pub project_document_message :
      DocumentMessage → MessageEvent → ProjectorContext → MessageEvent
  project_document_message m result pctx =
      set_media
        (record (media_info t c m.file (get_text m.file_name) "document") {
          caption = get_text m.caption;
          filename = get_text m.file_name;
          title = get_text m.title;
          page_count = get_number m.page_count;
          jpeg_thumbnail = m.jpeg_thumbnail;
        })
        (project_context_info wt m.context_info result pctx)

  -- `projectStickerMessage`
  unfoldable pub project_sticker_message :
      StickerMessage → MessageEvent → ProjectorContext → MessageEvent
  project_sticker_message m result pctx =
      set_media
        (record (media_info t c m.file "" "sticker") {
          height = get_number m.height;
          width = get_number m.width;
        })
        (project_context_info wt m.context_info result pctx)
