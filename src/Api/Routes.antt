-- ===== src/Api/Routes.antt =====
-- The routing of internal/api/server.go and routes.go. `path_unescape` stands for `url.PathUnescape`,
-- `url_host` and `split_host` for the hosts that `url.Parse` and `net.SplitHostPort` find.
use Prim.Native.String.{String}
use chunk_gate.Prelude.{
  ◌-◌, Bool, true, false, not, ◌&&◌, ◌||◌, Option, none, some, List, [], ◌∷◌, length, take, drop,
  if◌then◌else◌, Text, Text_eq, ◌==◌, codes, nat_eq,
}
use chunk_gate.Prelude.Chars.{has_prefix}
use chunk_gate.Prelude.Strings.{cut}
use chunk_gate.Api.Responses.{S3Error, s3_error, Outcome, rejected, accepted}
use chunk_gate.Api.Validation.{validate_bucket_name, validate_object_key}

pub record S3Path : Type 0 where
  pub bucket : Text
  pub key : Text
  pub has_bucket : Bool
  pub has_key : Bool

abbrev pub of_bucket : Text → S3Path
of_bucket bucket = record { bucket = bucket; key = []; has_bucket = true; has_key = false }

abbrev pub of_key : Text → Text → S3Path
of_key bucket key = record { bucket = bucket; key = key; has_bucket = true; has_key = true }

abbrev not_empty : Text → Option Text
not_empty [] = none
not_empty (c ∷ s) = some (c ∷ s)

-- `strings.HasSuffix` and `strings.TrimSuffix`
unfoldable pub has_suffix : Text → Text → Bool
has_suffix end s = drop (length s - length end) s == end

unfoldable pub trim_suffix : Text → Text → Text
unfolding has_suffix
trim_suffix end s = if has_suffix end s then take (length s - length end) s else s

module _ (path_unescape : Text → Option Text) where
  -- A key that is there but empty when unescaped is refused.
  unfoldable pub path_key : Text → Option Text → Option S3Path
  path_key bucket none = none
  path_key bucket (some []) = none
  path_key bucket (some (c ∷ key)) = some (of_key bucket (c ∷ key))

  unfoldable pub path_bucket : Option Text → Text → Option S3Path
  unfolding path_key
  path_bucket none key_escaped = none
  path_bucket (some []) key_escaped = none
  path_bucket (some (c ∷ bucket)) [] = some (of_bucket (c ∷ bucket))
  path_bucket (some (c ∷ bucket)) (k ∷ key_escaped) =
      path_key (c ∷ bucket) (path_unescape (k ∷ key_escaped))

  abbrev parts_of : Text → Option (Text × Text) → Text × Text
  parts_of path none = (path, [])
  parts_of path (some parts) = parts

  unfoldable pub parse_s3_path : Text → Option S3Path
  unfolding path_bucket
  parse_s3_path escaped_path =
      let trimmed = trim_prefix_once escaped_path in
      let parts = parts_of trimmed (cut b'/' trimmed) in
      if trimmed == []
      then some (record { bucket = []; key = []; has_bucket = false; has_key = false })
      else if parts.0 == []
      then none
      else path_bucket (path_unescape parts.0) parts.1
    where
      trim_prefix_once : Text → Text
      trim_prefix_once [] = []
      trim_prefix_once (c ∷ s) = if nat_eq c b'/' then s else c ∷ s

  unfoldable pub parse_virtual_hosted_s3_path : Text → Text → Option S3Path
  unfolding path_key
  parse_virtual_hosted_s3_path bucket escaped_path =
      if without_slash escaped_path == []
      then some (of_bucket bucket)
      else path_key bucket (path_unescape (without_slash escaped_path))
    where
      without_slash : Text → Text
      without_slash [] = []
      without_slash (c ∷ s) = if nat_eq c b'/' then s else c ∷ s

  -- `parseS3Target`, for a normalized host: the first virtual host that the host lies below.
  unfoldable pub parse_s3_target : Text → Text → List Text → Option S3Path
  unfolding parse_s3_path parse_virtual_hosted_s3_path
  parse_s3_target host escaped_path [] = parse_s3_path escaped_path
  parse_s3_target host escaped_path (virtual ∷ hosts) =
      let later = parse_s3_target host escaped_path hosts in
      if host == [] || virtual == [] || host == virtual
      then later
      else if not (has_suffix (b'.' ∷ virtual) host)
      then later
      else if trim_suffix (b'.' ∷ virtual) host == []
      then later
      else parse_virtual_hosted_s3_path (trim_suffix (b'.' ∷ virtual) host) escaped_path

-- A request, with what the handlers read of it: `uploads` is whether it has that subresource, and
-- `upload_id` the value of `uploadId`, empty if it is absent.
pub record HttpRequest : Type 0 where
  pub method : Text
  pub path : Text
  pub uploads : Bool
  pub upload_id : Text

-- What a request leads to. `s3` names what is done for a tenant to the object of the target;
-- `on_upload` what is done for a tenant to the upload with an id: its handlers do not get the target.
pub data S3Call : Type 0 where
  initiates puts gets deletes : S3Call

pub data UploadCall : Type 0 where
  sends_part completes aborts : UploadCall

pub data Action : Type 0 where
  no_page pprof health readiness metrics_page answered_by_cors : Action
  denied : S3Error → Action
  delta : Text → Action
  service : Action
  on_bucket : Text → Action
  s3 : S3Call → Text → S3Path → Action
  on_upload : UploadCall → Text → Text → Action

abbrev pub is_method : HttpRequest → String → Bool
is_method r name = r.method == codes name

-- The `switch` of `serveHTTP`.
unfoldable pub object_action : HttpRequest → Text → S3Path → Action
object_action r tenant target =
    if is_method r "POST" && r.uploads
    then s3 initiates tenant target
    else if is_method r "PUT" && not (r.upload_id == [])
    then on_upload sends_part tenant r.upload_id
    else if is_method r "POST" && not (r.upload_id == [])
    then on_upload completes tenant r.upload_id
    else if is_method r "DELETE" && not (r.upload_id == [])
    then on_upload aborts tenant r.upload_id
    else if is_method r "PUT"
    then s3 puts tenant target
    else if is_method r "GET" || is_method r "HEAD"
    then s3 gets tenant target
    else if is_method r "DELETE"
    then s3 deletes tenant target
    else denied (s3_error 405 "MethodNotAllowed")

module _ (parse_ip : Text → Bool) (r : HttpRequest) where
  unfoldable pub target_action : Text → Option S3Path → Action
  unfolding object_action
  target_action tenant none = denied (s3_error 400 "InvalidURI")
  target_action tenant (some target) =
      if not target.has_bucket
      then service
      else if not (validate_bucket_name parse_ip target.bucket)
      then denied (s3_error 400 "InvalidBucketName")
      else if not target.has_key
      then on_bucket target.bucket
      else if not (validate_object_key target.key)
      then denied (s3_error 400 "InvalidObjectName")
      else object_action r tenant target

  unfoldable pub tenant_action : Outcome Text → Option S3Path → Action
  unfolding target_action
  tenant_action (rejected e) target = denied e
  tenant_action (accepted tenant) target =
      if has_prefix (codes "/_chunkgate/v1/") r.path
      then delta tenant
      else target_action tenant target

  -- `serveHTTP`, given whether profiling is on, whether `handleCORS` answers, what `authenticate` finds
  -- and what `parseS3Target` gives.
  unfoldable pub serve_http : Bool → Bool → Outcome Text → Option S3Path → Action
  unfolding tenant_action
  serve_http debug_pprof_enabled cors_answers tenant target =
      if has_prefix (codes "/debug/pprof") r.path
      then (if debug_pprof_enabled then pprof else no_page)
      else if r.path == codes "/healthz"
      then health
      else if r.path == codes "/readyz"
      then readiness
      else if r.path == codes "/metrics"
      then metrics_page
      else if cors_answers
      then answered_by_cors
      else tenant_action tenant target

-- `authenticate`, given the anonymous tenant and what the verifier finds, if there is one that is on.
unfoldable pub authenticate : Text → Option (Outcome Text) → Outcome Text
authenticate [] none = rejected (s3_error 403 "AccessDenied")
authenticate (c ∷ tenant) none = accepted (c ∷ tenant)
authenticate anonymous (some found) = found
