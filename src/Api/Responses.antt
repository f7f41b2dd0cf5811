-- ===== src/Api/Responses.antt =====
-- internal/api/responses.go: responses, and the errors that are answered.
use Prim.Native.String.{String}
use chunk_gate.Prelude.{
  ℕ, Bool, true, false, Option, none, some, List, [], Text_eq, if◌then◌else◌, Text, codes,
}
use chunk_gate.Prelude.Map.{Map, insert}
use chunk_gate.Errors.{
  Error, Result, ok, capacity_exceeded, insufficient_disk, metadata_not_found, block_not_found,
  backend_unavailable, body_too_large, wrapped,
}

-- `s3Error`, without its message.
pub record S3Error : Type 0 where
  pub status : ℕ
  pub code : Text

pub data Outcome (A : Type 0) : Type 0 where
  rejected : S3Error → Outcome A
  accepted : A → Outcome A

abbrev pub s3_error : ℕ → String → S3Error
s3_error status code = record { status = status; code = codes code }

-- What a handler writes. The code is that of the XML of an error; `headers` are those stored with the
-- object and the type of an error's XML; `body` is what `io.Copy` sends, or the error that cuts it off.
pub record Response : Type 0 where
  pub status : ℕ
  pub code : Text
  pub headers : Option (Map Text Text)
  pub etag : Text
  pub content_length : Option ℕ
  pub content_range : Text
  pub body : Result (List ℕ)

abbrev pub empty_response : Response
empty_response = record {
  status = 200;
  code = [];
  headers = none;
  etag = [];
  content_length = none;
  content_range = [];
  body = ok [];
}

-- `writeXML` sets the type over one that is set already.
unfoldable pub with_xml_type : Option (Map Text Text) → Option (Map Text Text)
with_xml_type none = some (insert (codes "Content-Type") (codes "application/xml") [])
with_xml_type (some headers) =
    some (insert (codes "Content-Type") (codes "application/xml") headers)

-- `writeError`, of a response with these headers
unfoldable pub write_error_after : Option (Map Text Text) → S3Error → Response
unfolding with_xml_type
write_error_after headers e = record empty_response {
  status = e.status;
  code = e.code;
  headers = with_xml_type headers;
}

unfoldable pub write_error : S3Error → Response
unfolding write_error_after
write_error e = write_error_after none e

-- `errors.Is` with each of the sentinel errors.
unfoldable pub is_not_found : Error → Bool
is_not_found metadata_not_found = true
is_not_found (wrapped what e) = is_not_found e
is_not_found _ = false

unfoldable pub is_block_not_found : Error → Bool
is_block_not_found block_not_found = true
is_block_not_found (wrapped what e) = is_block_not_found e
is_block_not_found _ = false

unfoldable pub is_capacity_error : Error → Bool
is_capacity_error capacity_exceeded = true
is_capacity_error insufficient_disk = true
is_capacity_error (wrapped what e) = is_capacity_error e
is_capacity_error _ = false

unfoldable pub is_unavailable : Error → Bool
is_unavailable backend_unavailable = true
is_unavailable (wrapped what e) = is_unavailable e
is_unavailable _ = false

unfoldable pub is_body_limit_error : Error → Bool
is_body_limit_error body_too_large = true
is_body_limit_error (wrapped what e) = is_body_limit_error e
is_body_limit_error _ = false

-- `writeInternalError`
unfoldable pub write_internal_error : Error → Response
unfolding is_block_not_found is_capacity_error is_unavailable write_error
write_internal_error e = write_error (
    if is_block_not_found e
    then s3_error 404 "NoSuchKey"
    else if is_capacity_error e
    then s3_error 507 "InsufficientStorage"
    else if is_unavailable e
    then s3_error 503 "ServiceUnavailable"
    else s3_error 500 "InternalError")
