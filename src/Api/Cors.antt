-- ===== src/Api/Cors.antt =====
-- internal/api/cors.go: which origins, methods and headers a browser may use. Texts are ASCII.
use chunk_gate.Prelude.{
  ℕ, Bool, true, false, not, ◌&&◌, ◌||◌, Option, none, some, List, [], ◌∷◌, ◌++◌, map,
  if◌then◌else◌, Text, Text_eq, ◌==◌, codes, nat_eq,
}
use chunk_gate.Prelude.Chars.{to_lower, to_upper, trim_space}
use chunk_gate.Prelude.Int.{ℤ, pos, ltb_ℤ}
use chunk_gate.Api.Responses.{S3Error, s3_error}

pub record CorsConfig : Type 0 where
  pub allowed_origins : List Text
  pub allowed_methods : List Text
  pub allowed_headers : List Text
  pub exposed_headers : List Text
  pub allow_credentials : Bool
  pub max_age_seconds : ℤ

-- `strings.EqualFold`
unfoldable pub equal_fold : Text → Text → Bool
equal_fold s t = map to_lower s == map to_lower t

unfoldable pub is_separator : ℕ → Bool
is_separator c = nat_eq c b',' || nat_eq c b' ' || nat_eq c 9 || nat_eq c 10 || nat_eq c 13

-- `strings.FieldsFunc`: the longest parts without separators; `field` is what has been read of one.
unfoldable pub fields : Text → Text → List Text
unfolding is_separator
fields field [] = if field == [] then [] else field ∷ []
fields field (c ∷ s) =
    let ended = fields [] s in
    let longer = fields (field ++ (c ∷ [])) s in
    if is_separator c then (if field == [] then ended else field ∷ ended) else longer

-- The fields that are not empty when they are trimmed.
unfoldable pub kept_fields : List Text → List Text
kept_fields [] = []
kept_fields (f ∷ fs) =
    let rest = kept_fields fs in if trim_space f == [] then rest else trim_space f ∷ rest

unfoldable pub split_header_values : Text → List Text
unfolding fields kept_fields
split_header_values value = kept_fields (fields [] value)

unfoldable pub any_of : (Text → Bool) → List Text → Bool
any_of test [] = false
any_of test (x ∷ xs) = test x || any_of test xs

abbrev pub contains_wildcard : List Text → Bool
contains_wildcard values = any_of (λ value. value == codes "*") values

abbrev pub has_text : Text → List Text → Bool
has_text key seen = any_of (λ s. s == key) seen

-- The items, without those whose keys were seen before; what is kept is the item or its key.
unfoldable pub unique : (Text → Text) → (Text → Text) → List Text → List Text → List Text
unique key kept seen [] = []
unique key kept seen (item ∷ items) =
    let rest = unique key kept seen items in
    let later = unique key kept (key item ∷ seen) items in
    if has_text (key item) seen then rest else kept item ∷ later

unfoldable pub all_items : List Text → List Text
unfolding split_header_values
all_items [] = []
all_items (value ∷ values) = split_header_values value ++ all_items values

unfoldable pub normalize_header_list : List Text → List Text
unfolding unique all_items
normalize_header_list values = unique (map to_lower) (λ item. item) [] (all_items values)

unfoldable pub normalize_method_list : List Text → List Text
unfolding unique all_items
normalize_method_list values = unique (map to_upper) (map to_upper) [] (all_items values)

abbrev or_default : List Text → List Text → List Text
or_default [] default = default
or_default (x ∷ xs) default = x ∷ xs

-- `normalized`
unfoldable pub normalized : CorsConfig → CorsConfig
unfolding normalize_header_list normalize_method_list
normalized c = record {
  allowed_origins = normalize_header_list c.allowed_origins;
  allowed_methods =
      or_default (normalize_method_list c.allowed_methods)
        (codes "GET" ∷ codes "HEAD" ∷ codes "PUT" ∷ codes "POST" ∷ codes "DELETE" ∷ []);
  allowed_headers = or_default (normalize_header_list c.allowed_headers) (codes "*" ∷ []);
  exposed_headers = or_default (normalize_header_list c.exposed_headers) (
      codes "ETag"
      ∷ codes "Content-Length"
      ∷ codes "Content-Range"
      ∷ codes "x-amz-request-id"
      ∷ []);
  allow_credentials = c.allow_credentials;
  max_age_seconds = c.max_age_seconds;
}

-- `strings.Join(values, ", ")`
unfoldable pub join : List Text → Text
join [] = []
join (x ∷ []) = x
join (x ∷ y ∷ xs) = x ++ (codes ", " ++ join (y ∷ xs))

module _ (c : CorsConfig) where
  unfoldable pub enabled : Bool
  enabled = some_of c.allowed_origins
    where
      some_of : List Text → Bool
      some_of [] = false
      some_of (x ∷ xs) = true

  unfoldable pub origin_allowed : Text → Bool
  origin_allowed origin =
      any_of (λ allowed. allowed == codes "*" || equal_fold allowed origin) c.allowed_origins

  unfoldable pub response_origin : Text → Text
  response_origin origin =
      if not c.allow_credentials && contains_wildcard c.allowed_origins then codes "*" else origin

  unfoldable pub method_allowed : Text → Bool
  method_allowed method = any_of (λ allowed. equal_fold allowed method) c.allowed_methods

  unfoldable pub each_allowed : List Text → Bool
  each_allowed [] = true
  each_allowed (requested ∷ others) =
      any_of (λ allowed. equal_fold allowed requested) c.allowed_headers && each_allowed others

  unfoldable pub headers_allowed : Text → Bool
  unfolding each_allowed
  headers_allowed request_headers =
      if trim_space request_headers == []
      then true
      else if contains_wildcard c.allowed_headers
      then true
      else each_allowed (split_header_values request_headers)

  unfoldable pub allowed_headers_value : Text → Text
  unfolding join
  allowed_headers_value request_headers =
      if contains_wildcard c.allowed_headers
      then (if trim_space request_headers == []
          then codes "*"
          else join (split_header_values request_headers))
      else join c.allowed_headers

-- The headers of an answer to a preflight request.
pub record Preflight : Type 0 where
  pub allow_origin : Text
  pub allow_credentials : Bool
  pub allow_methods : Text
  pub allow_headers : Text
  pub max_age : Option ℤ

-- The request goes on, with the origin and the credentials in its headers if it was allowed; it is
-- refused; or it is answered.
pub data Handled : Type 0 where
  passes : Option (Text × Bool) → Handled
  refused : S3Error → Handled
  granted : Preflight → Handled

module _ (c : CorsConfig) (options : Bool) (origin request_method request_headers : Text) where
  abbrev pub answer : Preflight
  answer = record {
    allow_origin = response_origin c origin;
    allow_credentials = c.allow_credentials;
    allow_methods = join c.allowed_methods;
    allow_headers = allowed_headers_value c request_headers;
    max_age = if ltb_ℤ (pos 0) c.max_age_seconds then some c.max_age_seconds else none;
  }

  -- `handleCORS`; an absent header is empty.
  unfoldable pub handle_cors : Handled
  handle_cors =
      if not (enabled c)
      then passes none
      else if origin == []
      then passes none
      else if not (origin_allowed c origin)
      then (if options then refused (s3_error 403 "AccessDenied") else passes none)
      else if not options
      then passes (some (response_origin c origin, c.allow_credentials))
      else if request_method == []
      then refused (s3_error 400 "InvalidRequest")
      else if not (method_allowed c request_method)
      then refused (s3_error 400 "InvalidRequest")
      else if not (headers_allowed c request_headers)
      then refused (s3_error 400 "InvalidRequest")
      else granted answer
