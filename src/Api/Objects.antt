-- ===== src/Api/Objects.antt =====
-- The handlers of internal/api/object_handlers.go. A handler runs alone; `answers` are those of the
-- request's context, one for each call of the service.
use chunk_gate.Prelude.{
  ℕ, ◌+◌, ◌-◌, Bool, Option, none, some, List, [], ◌∷◌, ◌++◌, if◌then◌else◌, Text, Text_eq, ◌==◌,
  codes,
}
use chunk_gate.Prelude.Chars.{trim_space}
use chunk_gate.Prelude.Strings.{format_int}
use chunk_gate.Errors.{Error, Result, ok, err}
use chunk_gate.Metadata.Types.{ObjectManifest}
use chunk_gate.Object.Blocks.{BlockStore}
use chunk_gate.Object.Service.{Server, ByteRange, stat, delete}
use chunk_gate.Object.Open.{Source, open_object, read_all}
use chunk_gate.Api.Ranges.{parse_single_range}
use chunk_gate.Api.Responses.{
  Response, empty_response, s3_error, write_error, write_error_after, write_internal_error,
  is_not_found,
}

-- `bytes start-end/size`
abbrev pub content_range_of : ByteRange → ℕ → Text
content_range_of r size =
    codes "bytes "
    ++ (format_int r.start ++ (b'-' ∷ (format_int r.end ++ (b'/' ∷ format_int size))))

-- `applyRangeHeaders`
unfoldable pub apply_range_headers : ObjectManifest → ByteRange → ℕ → Response
apply_range_headers m r length = record {
  status = 206;
  code = [];
  headers = m.headers;
  etag = m.etag;
  content_length = some length;
  content_range = content_range_of r m.size;
  body = ok [];
}

-- An error of the service, for an object that may be missing.
abbrev pub service_error : Error → Response
service_error e =
    if is_not_found e then write_error (s3_error 404 "NoSuchKey") else write_internal_error e

module _ {B : Type 0} (blocks : BlockStore B) (head : Bool) (tenant bucket key : Text) where
  abbrev pub sent : List Source → Result (List ℕ)
  sent readers = if head then ok [] else read_all readers

  unfoldable pub whole_response : Result (ObjectManifest × List Source) → Response
  whole_response (err e) = service_error e
  whole_response (ok (m, readers)) = record {
    status = 200;
    code = [];
    headers = m.headers;
    etag = m.etag;
    content_length = some m.size;
    content_range = [];
    body = sent readers;
  }

  unfoldable pub part_response : ByteRange → ℕ → Result (ObjectManifest × List Source) → Response
  unfolding apply_range_headers
  part_response r length (err e) = write_internal_error e
  part_response r length (ok (m, readers)) = record (apply_range_headers m r length) {
    body = read_all readers;
  }

  module _ (answers : ℕ → Option Error) (s : Server B) where
    unfoldable pub range_response : ObjectManifest → Result ByteRange → Response
    unfolding part_response
    range_response m (err e) = record (write_error_after m.headers (s3_error 416 "InvalidRange")) {
      etag = m.etag;
      content_range = codes "bytes */" ++ format_int m.size;
    }
    range_response m (ok r) =
        let length = r.end - r.start + 1 in
        if head
        then apply_range_headers m r length
        else part_response r length (open_object blocks (answers 1) tenant bucket key (some r) s)

    unfoldable pub stat_response : Text → Result ObjectManifest → Response
    unfolding range_response
    stat_response range_header (err e) = service_error e
    stat_response range_header (ok m) = range_response m (parse_single_range m.size range_header)

    -- `getObjectRange`
    unfoldable pub get_object_range : Text → Response
    unfolding stat_response
    get_object_range range_header =
        stat_response range_header (stat (answers 0) tenant bucket key s)

    -- `getObject`, also for HEAD
    unfoldable pub get_object_response : Text → Response
    unfolding get_object_range whole_response
    get_object_response range_header =
        if trim_space range_header == []
        then whole_response (open_object blocks (answers 0) tenant bucket key none s)
        else get_object_range (trim_space range_header)

-- `deleteObject`: an object that is not there is deleted.
unfoldable pub delete_response : {A : Type 0} → Result A → Response
delete_response (ok a) = record empty_response { status = 204 }
delete_response (err e) =
    if is_not_found e then record empty_response { status = 204 } else write_internal_error e

unfoldable pub delete_object_response :
    {B : Type 0} → Option Error → (ℕ → ℕ) → Text → Text → Text → Server B → Response × Server B
unfolding delete_response
delete_object_response canceled clock tenant bucket key s =
    let (r, s') = delete canceled clock tenant bucket key s in (delete_response r, s')
