-- ===== src/Api/Guards.antt =====
-- What a request has passed before a handler of internal/api/server.go works on something.
use chunk_gate.Prelude.{
  ◌≡◌, ◌≢◌, refl, Bool, true, false, not, ◌&&◌, ◌||◌, Option, none, some, [], if◌then◌else◌, Text,
  Text_eq, text_eq_iff, ◌==◌, codes,
}
use chunk_gate.Api.Responses.{Outcome, rejected, accepted}
use chunk_gate.Api.Validation.{validate_bucket_name, validate_object_key}
use chunk_gate.Prelude.Chars.{has_prefix}
use chunk_gate.Api.Routes.{
  S3Path, S3Call, UploadCall, HttpRequest, Action, pprof, delta, service, on_bucket, s3, on_upload,
  initiates, puts, gets, deletes, sends_part, completes, aborts, object_action, target_action,
  tenant_action, serve_http, is_method,
}

module _ (parse_ip : Text → Bool) (r : HttpRequest) (found : Outcome Text) (parsed : Option S3Path)
    (debug_pprof_enabled : Bool) where
  -- The request's target is this one, with a valid bucket and a valid key.
  Aimed : S3Path → Type 0
  Aimed target =
      (parsed ≡ some target)
      × (validate_bucket_name parse_ip target.bucket ≡ true)
      × (validate_object_key target.key ≡ true)

  -- What an action tells of the request.
  unfoldable pub Guarded : Action → Type 0
  unfolding Aimed
  Guarded (s3 call tenant target) = (found ≡ accepted tenant) × Aimed target
  Guarded (on_upload call tenant id) =
      (found ≡ accepted tenant) × (id ≡ r.upload_id) × (id ≢ []) × ((t : S3Path) × Aimed t)
  Guarded (delta tenant) =
      (found ≡ accepted tenant) × (has_prefix (codes "/_chunkgate/v1/") r.path ≡ true)
  Guarded service = (t : Text) × (found ≡ accepted t)
  Guarded (on_bucket bucket) =
      ((t : Text) × (found ≡ accepted t)) × (validate_bucket_name parse_ip bucket ≡ true)
  Guarded pprof = debug_pprof_enabled ≡ true
  Guarded _ = Unit {0}

  if_Guarded :
      (b : Bool) (x y : Action)
      → (b ≡ true → Guarded x)
      → (b ≡ false → Guarded y)
      → Guarded (if b then x else y)
  if_Guarded true x y h k = h refl
  if_Guarded false x y h k = k refl

  unless :
      (b : Bool) (x y : Action)
      → Guarded x
      → (b ≡ true → Guarded y)
      → Guarded (if not b then x else y)
  unless true x y h k = k refl
  unless false x y h k = h

  has_id : (b : Bool) → (b && not (r.upload_id == [])) ≡ true → r.upload_id ≢ []
  has_id true h e =
      let empty : (r.upload_id == []) ≡ true = (text_eq_iff r.upload_id []).1 e in absurd (cc)
  has_id false h e = absurd (cc)

  module _ (tenant : Text) (ef : found ≡ accepted tenant) where
    object_action-Guarded :
        (target : S3Path) → Aimed target → Guarded (object_action r tenant target)
    unfolding object_action Guarded
    object_action-Guarded target aimed =
        if_Guarded (is_method r "POST" && r.uploads) _ _ (λ _. to_object initiates)
          λ _.
            if_Guarded (is_method r "PUT" && not (r.upload_id == [])) _ _
              (λ h. to_upload sends_part (has_id _ h))
              λ _.
                if_Guarded (is_method r "POST" && not (r.upload_id == [])) _ _
                  (λ h. to_upload completes (has_id _ h))
                  λ _.
                    if_Guarded (is_method r "DELETE" && not (r.upload_id == [])) _ _
                      (λ h. to_upload aborts (has_id _ h))
                      λ _.
                        if_Guarded (is_method r "PUT") _ _ (λ _. to_object puts)
                          λ _.
                            if_Guarded (is_method r "GET" || is_method r "HEAD") _ _
                              (λ _. to_object gets)
                              λ _.
                                if_Guarded (is_method r "DELETE") _ _ (λ _. to_object deletes)
                                  λ _. tt
      where
        to_object : (call : S3Call) → Guarded (s3 call tenant target)
        to_object call = (ef, aimed)

        to_upload :
            (call : UploadCall) → r.upload_id ≢ [] → Guarded (on_upload call tenant r.upload_id)
        to_upload call some_id = (ef, refl, some_id, (target, aimed))

    target_action-Guarded :
        (target : Option S3Path)
        → parsed ≡ target
        → Guarded (target_action parse_ip r tenant target)
    unfolding target_action Guarded Aimed
    target_action-Guarded none ep = tt
    target_action-Guarded (some target) ep =
        unless target.has_bucket _ _ (tenant, ef)
          λ _. unless (validate_bucket_name parse_ip target.bucket) _ _ tt λ eb.
            unless target.has_key _ _ ((tenant, ef), eb)
              λ _.
                unless (validate_object_key target.key) _ _ tt
                  λ ek. object_action-Guarded target (ep, eb, ek)

  tenant_action-Guarded :
      (who : Outcome Text) → found ≡ who → Guarded (tenant_action parse_ip r who parsed)
  unfolding tenant_action Guarded
  tenant_action-Guarded (rejected x) e = tt
  tenant_action-Guarded (accepted tenant) e =
      if_Guarded (has_prefix (codes "/_chunkgate/v1/") r.path) _ _ (λ h. (e, h))
        λ _. target_action-Guarded tenant e parsed refl

  -- Whatever a request leads to, what it needs holds: a handler on an object (initiate, put, get,
  -- delete) gets the tenant that authentication found and the request's target, with a valid bucket and
  -- key; one on an upload (part, complete, abort) gets that tenant and the request's upload id, which is
  -- not empty, behind a valid target; a delta handler gets that tenant; the service and bucket routes
  -- run for an authenticated tenant only, the latter on a valid bucket; profiles are served only if they
  -- are on.
  pub serve_http-Guarded :
      (cors_answers : Bool)
      → Guarded (serve_http parse_ip r debug_pprof_enabled cors_answers found parsed)
  unfolding serve_http Guarded
  serve_http-Guarded cors_answers =
      if_Guarded (has_prefix (codes "/debug/pprof") r.path) _ _
        (λ _. if_Guarded debug_pprof_enabled _ _ (λ on. on) (λ _. tt))
        λ _.
          if_Guarded (r.path == codes "/healthz") _ _ (λ _. tt)
            λ _.
              if_Guarded (r.path == codes "/readyz") _ _ (λ _. tt)
                λ _.
                  if_Guarded (r.path == codes "/metrics") _ _ (λ _. tt)
                    λ _. if_Guarded cors_answers _ _ (λ _. tt) λ _. tenant_action-Guarded found refl
