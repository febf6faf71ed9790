-- ===== src/Handler/MediaUrl.antt =====
-- internal/whatsapp/mediaurl.go: the download of a file that a request names by its URL.
use wsapi_app.Common.{
  ◌≢◌, ap, Result-cases, ℕ, zero, suc, ◌+◌, ◌≤◌, ◌≡◌, refl, sym, ◌∙◌, Bool, not, String, List, [],
  ◌∷◌, length, eqb, ltb, if◌then◌else◌, Result, ok, err, arith, inl, inr,
}
use wsapi_app.Server.Status.{Sentinel}
use wsapi_app.Event.MediaId.Reader.{Bytes}

-- What the server answers: its Content-Length, -1 being 0 here, since both pass the test; the body,
-- and whether it can be read.
pub record HttpResponse : Type 0 where
  pub content_length : ℕ
  pub body : Bytes
  pub read_ok : Bool
  pub status_code : ℕ

abbrev pub max_download_size : ℕ
max_download_size = 52428800

-- `io.ReadAll` of an `io.LimitedReader`
unfoldable pub read_limited : ℕ → Bytes → Bytes
read_limited zero body = []
read_limited (suc n) [] = []
read_limited (suc n) (b ∷ body) = b ∷ read_limited n body

-- The tests of an answer, whose body was read.
unfoldable pub accept : HttpResponse → Bytes → Result (List Sentinel) Bytes
accept resp content =
    if ltb max_download_size resp.content_length
    then err []
    else if not resp.read_ok
    then err []
    else if ltb max_download_size (length content)
    then err []
    else if not (eqb resp.status_code 200)
    then err []
    else ok content

-- `DownloadMediaFromURL`. `get` sends the request; its errors have the sentinels that they wrap.
unfoldable pub download_media_from_url :
    (String → Result (List Sentinel) HttpResponse) → String → Result (List Sentinel) Bytes
download_media_from_url get url = elim (get url) [
  | err e ↦ err e
  | ok resp ↦ accept resp (read_limited (max_download_size + 1) resp.body)
]

-- A short body is read as a whole.
read_limited_lem :
    (n : ℕ) (body : Bytes) → length (read_limited n body) ≢ n → read_limited n body ≡ body
unfolding read_limited
read_limited_lem zero body h = absurd (h refl)
read_limited_lem (suc n) [] h = refl
read_limited_lem (suc n) (b ∷ body) h =
    ap (λ rest. b ∷ rest) (read_limited_lem n body (λ e. h (ap suc e)))

accepted_lem :
    (resp : HttpResponse) (content accepted : Bytes)
    → accept resp content ≡ ok accepted
    → (content ≡ accepted)
      × (resp.status_code ≡ 200)
      × (length content ≤ max_download_size)
      × (resp.content_length ≤ max_download_size)
unfolding accept
accepted_lem resp content accepted h = ground arith

-- A file that is downloaded for a request is the whole body of an answer with status 200, and has at
-- most 50 MiB; an answer that claims more in its Content-Length is refused.
pub downloaded_within_limit :
    (get : String → Result (List Sentinel) HttpResponse) (url : String) (content : Bytes)
    → download_media_from_url get url ≡ ok content
    → (resp : HttpResponse) × (get url ≡ ok resp)
      × (content ≡ resp.body)
      × (resp.status_code ≡ 200)
      × (length content ≤ max_download_size)
      × (resp.content_length ≤ max_download_size)
unfolding download_media_from_url
downloaded_within_limit get url content h = elim (Result-cases (get url)) [
  | inl (e, failed) ↦ absurd (cc (rw (failed, download_media_from_url) at h))
  | inr (resp, answered) ↦
      let read = read_limited (max_download_size + 1) resp.body in
      let (same, status, short, announced) =
        accepted_lem resp read content (rw (answered, download_media_from_url) at h) in
      (
        resp,
        answered,
        sym same
            ∙ read_limited_lem (max_download_size + 1) resp.body (λ e. omega (arith, short, e)),
        status,
        rw (← same) short,
        announced,
      )
]
