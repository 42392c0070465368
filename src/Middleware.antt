-- ===== src/Middleware.antt =====
-- src/api/middleware.py: `LoggingMiddleware.dispatch`, around every request. Names of headers are in
-- lower case, as the framework compares them.
use saga_orchestrator_patter.Base.{
  ℕ, ◌≡◌, refl, ap, String, false, Option, none, some, List, [], ◌∷◌, arith, str_eq, str_eq_iff,
  if◌then◌else◌,
}

abbrev pub Headers : Type 0
Headers = List (String × String)

abbrev pub get_header : String → Headers → Option String
get_header name [] = none
get_header name ((k, v) ∷ rest) = if str_eq k name then some v else get_header name rest

abbrev pub without_header : String → Headers → Headers
without_header name [] = []
without_header name ((k, v) ∷ rest) =
    if str_eq k name then without_header name rest else (k, v) ∷ without_header name rest

-- `headers[name] = value`: the first value is replaced and any other is removed, or a new header is
-- added.
abbrev pub set_header : String → String → Headers → Headers
set_header name value [] = (name, value) ∷ []
set_header name value ((k, v) ∷ rest) =
    if str_eq k name
    then (k, value) ∷ without_header name rest
    else (k, v) ∷ set_header name value rest

pub record Request : Type 0 where
  pub method : String
  pub path : String
  pub headers : Headers

pub record Response : Type 0 where
  pub status_code : ℕ
  pub headers : Headers

-- What the rest of the application does with the request.
pub data Handled : Type 0 where
  answered : Response → Handled
  raised : Handled

-- The log lines, each with the request id that is bound to the context.
pub data Line : Type 0 where
  request_started : String → String → String → Line
  request_finished : String → ℕ → Line
  request_failed : String → Line

-- `request.headers.get("X-Request-ID") or str(ulid.ULID())`: an empty header counts as none.
abbrev pub request_id_of : String → Option String → String
request_id_of fresh none = fresh
request_id_of fresh (some given) = if str_eq given "" then fresh else given

finish : String → Handled → Handled × List Line
finish id (answered r) = (
  answered (record r { headers = set_header "x-request-id" id r.headers }),
  request_finished id r.status_code ∷ [],
)
finish id raised = (raised, request_failed id ∷ [])

unfoldable pub dispatch : String → (Request → Handled) → Request → Handled × List Line
unfolding finish
dispatch fresh call_next request =
    let id = request_id_of fresh (get_header "x-request-id" request.headers) in
    let (handled, lines) = finish id (call_next request) in
    (handled, request_started id request.method request.path ∷ lines)

get-without_header :
    (name other : String) (hs : Headers)
    → str_eq name other ≡ false
    → get_header other (without_header name hs) ≡ get_header other hs
get-without_header name other [] differ = refl
get-without_header name other ((k, v) ∷ rest) differ = ground (
  arith,
  get-without_header name other rest differ,
  str_eq_iff k name,
  str_eq_iff name other,
  str_eq_iff k other,
)

get-set_header :
    (name value other : String) (hs : Headers)
    → get_header other (set_header name value hs)
      ≡ (if str_eq name other then some value else get_header other hs)
get-set_header name value other [] = refl
get-set_header name value other ((k, v) ∷ rest) = ground (
  arith,
  get-set_header name value other rest,
  get-without_header name other rest,
  str_eq_iff k name,
  str_eq_iff name other,
  str_eq_iff k other,
)

module _ (fresh : String) (call_next : Request → Handled) (request : Request) (r : Response) where
  -- The answer to a request that is answered.
  dispatch-answered :
      call_next request ≡ answered r
      → let id = request_id_of fresh (get_header "x-request-id" request.headers) in
        dispatch fresh call_next request ≡ (
          answered (record r { headers = set_header "x-request-id" id r.headers }),
          request_started id request.method request.path ∷ request_finished id r.status_code ∷ [],
        )
  unfolding dispatch
  dispatch-answered done = rw done refl

  dispatch_echoes :
      (given : String)
      → call_next request ≡ answered r
      → get_header "x-request-id" request.headers ≡ some given
      → str_eq given "" ≡ false
      → (out : Response) × ((dispatch fresh call_next request).0 ≡ answered out)
        × (out.status_code ≡ r.status_code)
        × ((name : String)
            → get_header name out.headers
              ≡ (if str_eq "x-request-id" name then some given else get_header name r.headers))
  dispatch_echoes given done sent full =
      let id = request_id_of fresh (get_header "x-request-id" request.headers) in
      let same : id ≡ given = ground (arith, sent, full) in
      (
        record r { headers = set_header "x-request-id" id r.headers },
        ap (λ p. p.0) (dispatch-answered done),
        refl,
        λ name. rw same (get-set_header "x-request-id" given name r.headers),
      )
