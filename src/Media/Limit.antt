-- ===== src/Media/Limit.antt =====
-- The limit of a download.
use wsapi_app.Common.{
  ℕ, ◌≤◌, ◌<◌, ◌^◌, ◌≡◌, refl, Bool, true, false, not, ◌&&◌, Option, none, some, length, ltb, arith,
  Result, ok, >>=-eq-ok,
}
use wsapi_app.Event.MediaId.{MediaDownloadInfo}
use wsapi_app.Event.MediaId.Reader.{Bytes}
use wsapi_app.Media.{
  MediaError, too_large, unsupported_media_type, context_done, download_failed,
  downloaded_too_large, temp_file_failed, DownloadableMessage, MediaDownloadResult, Downloader,
  has_limit, build_downloadable_message, guard, require, decoded, download_by_id,
}

ok-injective : {A : Type 0} {a b : A} → ◌≡◌ {A = Result MediaError A} (ok a) (ok b) → a ≡ b
ok-injective h = cc

module _ (d : Downloader) where
  guarded : (b : Bool) (e : MediaError) (u : Unit {0}) → guard d b e ≡ ok u → b ≡ true
  guarded true e u h = refl
  guarded false e u h = cc

  required :
      {A : Type 0} (o : Option A) (e : MediaError) {a : A} → require d o e ≡ ok a → o ≡ some a
  required none e h = cc
  required (some b) e h = cc

bound : (max n : ℕ) → 0 < max → max < 2 ^ 63 → not (has_limit max && ltb max n) ≡ true → n ≤ max
bound max n positive fits h = ground arith

-- A download under a limit, which is a positive int64, that returns a file returns what the client
-- delivered for the message of the decoded ID, and neither the length that the ID claims nor the
-- file itself is larger than the limit, whatever the ID says of the file.
pub download_within_limit :
    (d : Downloader) (max_file_size : ℕ) (media_id : Bytes) (result : MediaDownloadResult)
    → 0 < max_file_size
    → max_file_size < 2 ^ 63
    → download_by_id d max_file_size media_id ≡ ok result
    → (info : MediaDownloadInfo) × (msg : DownloadableMessage) × (decoded d media_id ≡ ok info)
      × (build_downloadable_message (d.text_of info.media_type) info ≡ some msg)
      × (d.download msg ≡ some result.body)
      × (info.file_length ≤ max_file_size)
      × (length result.body ≤ max_file_size)
      × (result.size ≡ length result.body)
unfolding download_by_id
download_within_limit d max media_id result positive fits h =
    let (info, decodes, h1) = >>=-eq-ok (decoded d media_id) _ h in
    let (u1, small, h2) =
      >>=-eq-ok (guard d (not (has_limit max && ltb max info.file_length)) too_large) _ h1 in
    let (msg, built, h3) =
      >>=-eq-ok
        (require d (build_downloadable_message (d.text_of info.media_type) info)
          unsupported_media_type)
        _ h2 in
    let (u2, free, h4) = >>=-eq-ok (guard d d.slot_free context_done) _ h3 in
    let (payload, delivered, h5) = >>=-eq-ok (require d (d.download msg) download_failed) _ h4 in
    let (u3, bounded, h6) =
      >>=-eq-ok (guard d (not (has_limit max && ltb max (length payload))) downloaded_too_large) _
        h5 in
    let (u4, written, h7) = >>=-eq-ok (guard d d.temp_file_ok temp_file_failed) _ h6 in
    (
      info,
      msg,
      decodes,
      required d _ unsupported_media_type built,
      rw (← ok-injective h7) (required d _ download_failed delivered),
      bound max info.file_length positive fits (guarded d _ too_large u1 small),
      rw (← ok-injective h7)
          (bound max (length payload) positive fits (guarded d _ downloaded_too_large u3 bounded)),
      rw (← ok-injective h7) refl,
    )
