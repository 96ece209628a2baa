-- ===== src/Meshcop/Coap/UriPath.antt =====
-- The Uri-Path of crates/ot-commissioner-rs/src/meshcop/coap.rs. A string is its UTF-8 bytes.
pub mod Paths
use ot_commissioner_rs.Base.{
  ℕ, Bool, true, false, not, Option, none, some, List, [], ◌∷◌, ◌++◌, retain, ◌==◌, if◌then◌else◌,
  Bytes, Result, ok, err, stuck, ◌>>=◌, ◌>>◌, fail_if,
}
use ot_commissioner_rs.Base.Utf8.{is_utf8, slash, split, join}
use ot_commissioner_rs.Errors.{Error, dataset}
use ot_commissioner_rs.Meshcop.Coap.{CoapType, CoapOption, CoapMessage, post, is_empty}

abbrev pub coap_option_uri_path : ℕ
coap_option_uri_path = 11

abbrev pub is_path : CoapOption → Bool
is_path o = o.number == coap_option_uri_path

abbrev pub path_option : Bytes → CoapOption
path_option segment = record { number = coap_option_uri_path; value = segment }

-- `uri_path.strip_prefix('/').unwrap_or(uri_path)`
unfoldable pub trimmed : Bytes → Bytes
trimmed [] = []
trimmed (b ∷ bs) = if b == slash then bs else b ∷ bs

-- The loop over the segments, which stops at an empty one and leaves those before it.
unfoldable pub push_segments :
    List Bytes → List CoapOption → List CoapOption × Result Error (Unit {0})
push_segments [] options = (options, ok tt)
push_segments (s ∷ ss) options =
    let rest = push_segments ss (options ++ path_option s ∷ []) in
    if is_empty s then (options, err (dataset "CoAP Uri-Path has an empty segment")) else rest

-- `set_uri_path`: the message it leaves, and its result.
unfoldable pub set_uri_path : CoapMessage → Bytes → CoapMessage × Result Error (Unit {0})
set_uri_path m uri_path =
    let kept = retain (λ o. not (is_path o)) m.options in
    let pushed = push_segments (split (trimmed uri_path)) kept in
    if is_empty (trimmed uri_path)
    then (record m { options = kept }, ok tt)
    else (record m { options = pushed.0 }, pushed.1)

-- `set_uri_path(..)?; Ok(message)`
posted : CoapMessage × Result Error (Unit {0}) → Result Error CoapMessage
posted (m, ok u) = ok m
posted (m, err e) = err e
posted (m, stuck) = stuck

-- `CoapMessage::post_request`
unfoldable pub post_request : CoapType → ℕ → Bytes → Bytes → Bytes → Result Error CoapMessage
unfolding posted
post_request ty message_id token uri_path payload = posted (
    set_uri_path
      (record {
        ty = ty;
        code = post;
        message_id = message_id;
        token = token;
        options = [];
        payload = payload;
      })
      uri_path)

from_utf8 : Bytes → Result Error Bytes
from_utf8 value = if is_utf8 value then ok value else err (dataset "CoAP Uri-Path is not UTF-8")

-- The loop that collects the segments.
unfoldable pub segments : List CoapOption → Result Error (List Bytes)
unfolding from_utf8
segments [] = ok []
segments (o ∷ os) =
    let rest = segments os in
    if is_path o then from_utf8 o.value >>= (λ s. rest >>= λ ss. ok (s ∷ ss)) else rest

-- `uri_path`
unfoldable pub uri_path : CoapMessage → Result Error (Option Bytes)
uri_path m = segments m.options >>= λ ss. ok (if is_empty ss then none else some (slash ∷ join ss))
