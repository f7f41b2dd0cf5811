-- ===== src/Api/Tests.antt =====
-- The theorems on ranges at concrete headers.
use chunk_gate.Prelude.{
  ℕ, ◌≤◌, ◌<◌, ◌≡◌, ◌≢◌, ◌↔◌, ◌⊎◌, refl, arith, codes, false, true, none, some, List, [], ◌∷◌, map,
}
use chunk_gate.Prelude.Int.{pos}
use chunk_gate.Prelude.Map.{Map}
use chunk_gate.Multipart.Manager.{PartInfo}
use chunk_gate.Object.Samples.{Held, empty_server, held_blocks, object, server, found, laid}
use chunk_gate.Api.Responses.{accepted}
use chunk_gate.Api.Parts.{
  CompletePart, number_of, InOrder, validate_completed_parts, validate_completed_parts_exact,
}
use chunk_gate.Api.Uploads.{Front}
use chunk_gate.Api.Validation.{validate_bucket_name, is_alnum}
use chunk_gate.Api.BucketNames.{
  is_name, labels_of, is_label, all_labels, inner, validate_bucket_name-is_name,
}
use chunk_gate.Prelude.Chars.{
  in_range, is_digit, is_space, to_lower, to_upper, trim_space, trim_left, trim_right,
}
use chunk_gate.Api.Cors.{
  CorsConfig, normalized, normalize_header_list, normalize_method_list, unique, all_items,
  split_header_values, fields, kept_fields, is_separator, any_of, enabled, origin_allowed,
  response_origin, method_allowed, headers_allowed, equal_fold, join, allowed_headers_value,
  handle_cors, answer,
}
use chunk_gate.Api.Preflight.{OriginListed, MethodListed, HeadersListed, handle_cors-granted}
use chunk_gate.Prelude.Tests.{text_eq}
use chunk_gate.Api.Routes.{
  HttpRequest, S3Path, of_key, parse_s3_target, parse_s3_path, path_bucket, path_key, serve_http,
  tenant_action, target_action, object_action,
}
use chunk_gate.Api.Guards.{Guarded, serve_http-Guarded}
use chunk_gate.Prelude.Strings.{cut}
use chunk_gate.Prelude.Chars.{every, has_prefix}
use chunk_gate.Prelude.Runes.{expected_after}
use chunk_gate.Api.Validation.{scan_bucket, last_of, has_pair, validate_object_key, utf8_from}
use chunk_gate.Api.Objects.{get_object_response}
use chunk_gate.Api.Reads.{get_object_response-range}
use chunk_gate.Prelude.Strings.{digits}
use chunk_gate.Errors.{ok}
use chunk_gate.Api.Ranges.{parse_single_range}
use chunk_gate.Api.RangeLaws.{parse_single_range-IsWithin}
use chunk_gate.Api.RangeHeaders.{between, last, parse_single_range-header_of}

middle : parse_single_range 10 (codes "bytes=2-5") ≡ ok (record { start = 2; end = 5 })
unfolding digits
middle = parse_single_range-header_of 10 (between 2 5) (omega arith)

parse_single_range-IsWithin_example : (2 ≤ 5) × (5 < 10)
parse_single_range-IsWithin_example =
    parse_single_range-IsWithin 10 (codes "bytes=2-5") (record { start = 2; end = 5 }) middle

parse_single_range-header_of_example :
    parse_single_range 10 (codes "bytes=-30") ≡ ok (record { start = 0; end = 9 })
unfolding digits
parse_single_range-header_of_example = parse_single_range-header_of 10 (last 30) (omega arith)

abbrev parts : Map ℕ PartInfo
parts =
    (1, record { number = 1; size = pos 3; etag = codes "\"aa\""; path = [] })
    ∷ (4, record { number = 4; size = pos 2; etag = codes "\"bb\""; path = [] })
    ∷ []

abbrev completion : List CompletePart
completion =
    record { part_number = pos 1; etag = codes "AA" }
    ∷ record { part_number = pos 4; etag = codes "\"bb\"" }
    ∷ []

-- The ETags may lack the quotation marks and be in capitals.
validate_completed_parts_exact_example :
    (validate_completed_parts parts completion ≡ accepted (1 ∷ 4 ∷ []))
    ↔ ((completion ≢ []) × InOrder parts 0 completion × ((1 ∷ 4 ∷ []) ≡ map (number_of) completion))
validate_completed_parts_exact_example =
    validate_completed_parts_exact parts completion (1 ∷ 4 ∷ [])

get_object_response-range_example :
    get_object_response held_blocks false
      (116 ∷ [])
      (98 ∷ [])
      (107 ∷ [])
      (λ n. none)
      server
      (codes "bytes=2-3")
    ≡ record {
      status = 206;
      code = [];
      headers = none;
      etag = [];
      content_length = some 2;
      content_range = codes "bytes 2-3/5";
      body = ok (3 ∷ 4 ∷ []);
    }
unfolding digits
get_object_response-range_example =
    get_object_response-range held_blocks (116 ∷ []) (98 ∷ []) (107 ∷ []) server object
      ((1 ∷ 2 ∷ 3 ∷ []) ∷ (4 ∷ 5 ∷ []) ∷ []) found laid refl (between 2 3) (omega arith)

abbrev front : Front Held
front = record { server = empty_server; drain = record { draining = false; pending = 2 } }

validate_bucket_name-is_name_example :
    validate_bucket_name (λ b. false) (codes "my.bucket-1")
    ≡ is_name (λ b. false) (codes "my.bucket-1")
validate_bucket_name-is_name_example =
    validate_bucket_name-is_name (λ b. false) (codes "my.bucket-1")

accepted_name : is_name (λ b. false) (codes "my.bucket-1") ≡ true
unfolding labels_of is_label all_labels inner is_alnum in_range is_digit
accepted_name = refl

refused_name : is_name (λ b. false) (codes "my.-bucket") ≡ false
unfolding labels_of is_label all_labels inner is_alnum in_range is_digit
refused_name = refl

abbrev cors : CorsConfig
cors = normalized (record {
  allowed_origins = codes "https://a.b, *" ∷ [];
  allowed_methods = codes "put" ∷ [];
  allowed_headers = [];
  exposed_headers = [];
  allow_credentials = true;
  max_age_seconds = pos 60;
})

handle_cors-granted_example :
    (true ≡ true)
    × OriginListed cors (codes "https://A.b")
    × MethodListed cors (codes "PUT")
    × HeadersListed cors []
    × ((true ≡ false) ⊎ (codes "https://A.b" ≡ codes "https://A.b"))
unfolding handle_cors normalized normalize_header_list normalize_method_list unique all_items
    split_header_values fields kept_fields is_separator any_of enabled origin_allowed
    response_origin method_allowed headers_allowed equal_fold join allowed_headers_value trim_space
    trim_left trim_right is_space in_range to_lower to_upper text_eq
handle_cors-granted_example =
    handle_cors-granted cors true (codes "https://A.b") (codes "PUT") []
      (answer cors true (codes "https://A.b") (codes "PUT") []) refl

abbrev upload : HttpRequest
upload = record { method = codes "PUT"; path = codes "/bkt/k"; uploads = false; upload_id = [] }

abbrev place : S3Path
place = of_key (codes "bkt") (codes "k")

-- Nothing is escaped in the path.
parsed_place : parse_s3_target (λ s. some s) [] (codes "/bkt/k") [] ≡ some place
unfolding parse_s3_target parse_s3_path path_bucket path_key cut text_eq
parsed_place = refl

serve_http-Guarded_example :
    (accepted (codes "t") ≡ accepted (codes "t"))
    × ((some place ≡ some place)
        × (validate_bucket_name (λ b. false) (codes "bkt") ≡ true)
        × (validate_object_key (codes "k") ≡ true))
unfolding Guarded serve_http tenant_action target_action object_action validate_bucket_name
    scan_bucket last_of has_pair validate_object_key utf8_from expected_after every is_alnum
    in_range is_digit has_prefix text_eq
serve_http-Guarded_example =
    serve_http-Guarded (λ b. false) upload (accepted (codes "t")) (some place) false false
