-- ===== src/Event/Tests.antt =====
-- The theorems about media IDs and about the deduplication set, at small values.
use wsapi_app.Common.{◌≡◌, refl, true, [], ◌∷◌, arith, ok}
use wsapi_app.Event.Samples.{codec, codec-IsCodec, picture}
use wsapi_app.Event.MediaId.{check_lengths, write_body, encode_media_id, decode_media_id}
use wsapi_app.Event.MediaId.Reader.{Bytes}
use wsapi_app.Event.MediaId.RoundTrip.{decode-encode}
use wsapi_app.Event.Dedup.{new_dedup, contains, run, see, clean, stop}
use wsapi_app.Event.Dedup.Window.{duplicate_within_ttl}

abbrev encoded : Bytes
encoded = 64 ∷ 31 ∷ write_body picture

decode-encode_example : decode_media_id codec encoded ≡ ok picture
unfolding encode_media_id check_lengths
decode-encode_example = decode-encode codec picture encoded codec-IsCodec (omega arith) refl

-- An ID seen at 100, with cleanings up to its TTL of 50.
duplicate_within_ttl_example :
    (contains
      (run (contains (new_dedup 50) "m" 100).1 (see "n" 120 ∷ clean 150 ∷ stop ∷ []))
      "m"
      900).0
    ≡ true
unfolding new_dedup contains
duplicate_within_ttl_example =
    duplicate_within_ttl (new_dedup 50) "m" 100 (see "n" 120 ∷ clean 150 ∷ stop ∷ []) 900 refl
      (tt, (omega arith, (tt, tt)))
