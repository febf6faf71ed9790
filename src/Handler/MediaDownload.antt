-- ===== src/Handler/MediaDownload.antt =====
-- internal/handler/media.go: the handler of the route /media/download. The printing by `%q` and
-- `url.PathEscape` are parameters. A text has no invalid UTF-8.
use Prim.Native.Char.{code}
use Prim.Native.String.{[], ◌∷◌, ◌++◌}
use text.Mathlib.TextLemmas.{nil-append, cons-append}
use wsapi_app.Common.{
  ℕ, ◌≡◌, refl, Bool, true, false, not, ◌&&◌, ◌||◌, String, ◌==◌, List, eqb, leb, Bool-cases, inl,
  inr, if◌then◌else◌, ok, err, arith,
}
use wsapi_app.Event.MediaId.Reader.{Bytes}
use wsapi_app.Server.Status.{Sentinel, err_too_large, service_status}
use wsapi_app.Media.{
  MediaError, bad_media_id, too_large, unsupported_media_type, context_done, download_failed,
  downloaded_too_large, temp_file_failed, Downloader, download_by_id,
}

-- `isASCII`
unfoldable pub is_ascii : String → Bool
is_ascii [] = true
is_ascii (c ∷ s) = leb (code c) 127 && is_ascii s

unfoldable pub has_slash : String → Bool
has_slash [] = false
has_slash (c ∷ s) = eqb (code c) b'/' || has_slash s

-- `filepath.Ext`: the part from the last dot, if no slash follows it.
unfoldable pub ext : String → String
ext [] = ""
ext (c ∷ s) =
    let rest = ext s in
    if not (rest == "") then rest else if eqb (code c) b'.' && not (has_slash s) then c ∷ s else ""

module _ (quote path_escape : String → String) where
  -- `contentDisposition`
  unfoldable pub content_disposition : String → String
  content_disposition filename =
      if is_ascii filename
      then "attachment; filename=" ++ quote filename
      else (let fallback = "download" ++ (if ext filename == "" then ".bin" else ext filename) in
          "attachment; filename="
          ++ (quote fallback ++ ("; filename*=UTF-8''" ++ path_escape filename)))

-- The file with its headers, or an error with its status.
pub data Answer : Type 0 where
  streamed : Bytes → String → ℕ → Bytes → Answer
  failure : ℕ → Answer

-- The sentinels that an error of `DownloadByID` wraps, given that of the context's error.
unfoldable pub media_sentinels : Sentinel → MediaError → List Sentinel
media_sentinels context_error bad_media_id = List.[]
media_sentinels context_error too_large = List.◌∷◌ err_too_large List.[]
media_sentinels context_error unsupported_media_type = List.[]
media_sentinels context_error context_done = List.◌∷◌ context_error List.[]
media_sentinels context_error download_failed = List.[]
media_sentinels context_error downloaded_too_large = List.◌∷◌ err_too_large List.[]
media_sentinels context_error temp_file_failed = List.[]

module _ (quote path_escape : String → String) (d : Downloader) (context_error : Sentinel) where
  -- `Download`
  unfoldable pub download : ℕ → Bytes → Answer
  download max_file_size List.[] = failure 400
  download max_file_size (List.◌∷◌ b bs) = elim (download_by_id d max_file_size (List.◌∷◌ b bs)) [
    | err e ↦ failure (service_status (media_sentinels context_error e))
    | ok result ↦
        streamed result.mime_type (content_disposition quote path_escape result.filename)
          result.size result.body
  ]

is_ascii-append : (s t : String) → is_ascii s ≡ true → is_ascii t ≡ true → is_ascii (s ++ t) ≡ true
unfolding is_ascii
is_ascii-append [] t hs ht = rw nil-append ht
is_ascii-append (c ∷ s) t hs ht =
    rw cons-append (ground (arith, is_ascii-append s t (ground arith) ht))

or_bin-is_ascii :
    (filename : String)
    → is_ascii (ext filename) ≡ true
    → is_ascii (if ext filename == "" then ".bin" else ext filename) ≡ true
unfolding is_ascii
or_bin-is_ascii filename h = elim (Bool-cases (ext filename == "")) [
  | inl n ↦ rw n refl
  | inr n ↦ rw n h
]

-- Where `%q` keeps ASCII text in ASCII and `url.PathEscape` always yields it, a file name whose
-- extension is ASCII gets a header in ASCII.
content_disposition-is_ascii :
    (quote path_escape : String → String)
    → ((s : String) → is_ascii s ≡ true → is_ascii (quote s) ≡ true)
    → ((s : String) → is_ascii (path_escape s) ≡ true)
    → (filename : String) → is_ascii (ext filename) ≡ true
    → is_ascii (content_disposition quote path_escape filename) ≡ true
unfolding content_disposition is_ascii
content_disposition-is_ascii quote path_escape quotes escapes filename h =
    let end = if ext filename == "" then ".bin" else ext filename in
    let fallback = quote ("download" ++ end) in
    let encoded = "; filename*=UTF-8''" ++ path_escape filename in
    elim (Bool-cases (is_ascii filename)) [
      | inl e ↦
          rw e (is_ascii-append "attachment; filename=" (quote filename) refl (quotes filename e))
      | inr e ↦ rw e (
          is_ascii-append "attachment; filename=" (fallback ++ encoded) refl (
            is_ascii-append fallback encoded
              (quotes ("download" ++ end)
                (is_ascii-append "download" end refl (or_bin-is_ascii filename h)))
              (is_ascii-append "; filename*=UTF-8''" (path_escape filename) refl
                (escapes filename))))
    ]
