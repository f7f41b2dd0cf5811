-- ===== src/Api/Uploads.antt =====
-- `putObject` of internal/api/object_handlers.go, with `beginUpload` and `limitedBody` of
-- internal/api/operations.go. A handler runs alone.
use chunk_gate.Prelude.{
  ℕ, ◌+◌, ◌-◌, Bool, true, false, Option, none, some, List, [], ◌∷◌, length, take, leb,
  if◌then◌else◌, Text,
}
use chunk_gate.Prelude.Int.{ℤ, pos, pos_part, leb_ℤ, ltb_ℤ}
use chunk_gate.Errors.{Result, ok, err, Context, body_too_large}
use chunk_gate.Ops.{start_upload, end_upload, reject_request}
use chunk_gate.Ops.Drain.{Drain}
use chunk_gate.Chunker.Options.{Splitter}
use chunk_gate.Chunker.Stream.{FastCdc}
use chunk_gate.Chunker.Reader.{Reader, failed}
use chunk_gate.Metadata.Types.{ObjectManifest}
use chunk_gate.Object.Blocks.{BlockStore}
use chunk_gate.Object.Service.{Server, Request, put}
use chunk_gate.Api.Responses.{
  Response, empty_response, s3_error, write_error, write_internal_error, is_body_limit_error,
}

-- What the handlers share.
pub record Front (B : Type 0) : Type 0 where
  pub server : Server B
  pub drain : Drain

-- `http.MaxBytesReader`: the read that passes the limit is cut off there and fails.
unfoldable pub max_bytes_reader : ℕ → Reader → Reader
max_bytes_reader n [] = []
max_bytes_reader n (r ∷ rs) =
    let rest = max_bytes_reader (n - length r.bytes) rs in
    if leb (length r.bytes) n
    then r ∷ rest
    else record { bytes = take n r.bytes; end = failed body_too_large } ∷ []

-- `limitedBody`: none if the length that is announced is too much.
unfoldable pub limited_body : ℤ → ℤ → Reader → Option Reader
limited_body max_bytes content_length body =
    if leb_ℤ max_bytes (pos 0)
    then some body
    else if ltb_ℤ max_bytes content_length
    then none
    else some (max_bytes_reader (pos_part max_bytes) body)

-- `Begin` of the drain and `StartUpload`: none if uploads are refused.
unfoldable pub begin_upload : {B : Type 0} → Front B → Option (Front B)
begin_upload f =
    if f.drain.draining
    then none
    else some (record {
      server = record f.server { metrics = start_upload f.server.metrics };
      drain = record f.drain { pending = f.drain.pending + 1 };
    })

-- The function that `beginUpload` returns.
unfoldable pub finish_upload : {B : Type 0} → Bool → Front B → Front B
finish_upload success f = record {
  server = record f.server { metrics = end_upload success f.server.metrics };
  drain = record f.drain { pending = f.drain.pending - 1 };
}

abbrev pub rejected_by : {B : Type 0} → Front B → Front B
rejected_by f = record f { server = record f.server { metrics = reject_request f.server.metrics } }

module _ {B : Type 0} (blocks : BlockStore B) (sha256_hex md5_hex : List ℕ → Text)
    (engine : FastCdc) (splitter : Splitter) (ctx : Context) (max_object_bytes content_length : ℤ)
    (q : Request) where
  -- Whether it succeeded, and the response.
  unfoldable pub put_answer : Result ObjectManifest → Bool × Response
  put_answer (ok m) = (true, record empty_response { etag = m.etag; content_length = some 0 })
  put_answer (err e) = (
    false,
    if is_body_limit_error e
        then write_error (s3_error 400 "EntityTooLarge")
        else write_internal_error e,
  )

  unfoldable pub put_body : Option Reader → Front B → (Bool × Response) × Front B
  unfolding put_answer
  put_body none f = ((false, write_error (s3_error 400 "EntityTooLarge")), rejected_by f)
  put_body (some body) f =
      let (r, server) =
        put blocks sha256_hex md5_hex engine splitter ctx (record q { body = body }) f.server in
      (put_answer r, record f { server = server })

  unfoldable pub put_begun : Front B → Option (Front B) → Response × Front B
  unfolding put_body
  put_begun f none = (write_error (s3_error 503 "ServiceUnavailable"), rejected_by f)
  put_begun f (some begun) =
      let (answer, f') = put_body (limited_body max_object_bytes content_length q.body) begun in
      (answer.1, finish_upload answer.0 f')

  unfoldable pub put_object : Front B → Response × Front B
  unfolding put_begun
  put_object f = put_begun f (begin_upload f)
