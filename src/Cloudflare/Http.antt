-- ===== src/Cloudflare/Http.antt =====
-- `Cloudflare` of src/cloudflare.rs: the requests it builds, how it decodes an answer, and the loop
-- over the pages of a list. reqwest and serde_json are parameters.
pub mod Decoding
pub mod Paging
pub mod Listing
pub mod Requests
use vercel_ddns.Base.{
  ℕ, zero, suc, ◌+◌, ◌^◌, ◌<◌, ◌≡◌, Text, codes, Bool, true, false, ◌&&◌, ◌||◌, not, Option, none,
  some, List, [], ◌∷◌, ◌++◌, map, ◌==◌, ◌!=◌, nat_eq, if◌then◌else◌, ltb, leb, is_nil,
}
use vercel_ddns.Base.Json.{Value}
use vercel_ddns.Base.Outcome.{Result, ok, err, Reply, returned, errored}
use vercel_ddns.Storage.{is_none}
use vercel_ddns.Cloudflare.Types.{
  CloudflareError, http, api, invalid_response, Zone, DnsRecord, Record, RecordBody, ApiError,
  PageInfo, Envelope,
}

pub data Method : Type 0 where
  get : Method
  post : Method
  put : Method
  delete : Method

-- What a `RequestBuilder` is told before `build`.
pub record Request (Url : Type 0) : Type 0 where
  pub method : Method
  pub url : Url
  pub bearer : Text
  pub query : List (Text × ℕ)
  pub json : Option RecordBody

-- reqwest and serde_json: `build` is the error of a request that cannot be built; `execute` sends a
-- request and `bytes` reads the answer's body; the readers are `from_slice` and `from_value`.
pub record Transport : Type 1 where
  pub Url : Type 0
  pub State : Type 0
  pub Response : Type 0
  pub extend : Url → List Text → Url
  pub build : Request Url → Result Text (Request Url)
  pub execute : Request Url → State → Reply State Text Response
  pub status : Response → ℕ
  pub bytes : Response → State → Reply State Text (List ℕ)
  pub envelope_of : List ℕ → Option Envelope
  pub zones_of : Value → Option (List Zone)
  pub records_of : Value → Option (List DnsRecord)
  pub record_of : Value → Option DnsRecord
  -- `CloudflareError::to_string`
  pub error_text : CloudflareError → Text

-- The fields of the client besides its connections.
pub record Cloudflare (T : Transport) : Type 0 where
  pub token : Text
  pub base_url : T.Url

abbrev pub Answered {ℓ} : Type ℓ → Type ℓ
Answered A = Result CloudflareError (A × Option PageInfo)

-- `from_value(result)` and what goes with it.
abbrev pub read {ℓ} :
    {A : Type ℓ} → (Value → Option A) → Option PageInfo → Option Value → Answered A
read from_value info none = err invalid_response
read from_value info (some v) = elim (from_value v) [
  | none ↦ err invalid_response
  | some a ↦ ok (a, info)
]

abbrev pub code_of : ApiError → ℕ
code_of e = e.code

-- `(200..300).contains(&status)`
abbrev pub is_success : ℕ → Bool
is_success status = leb 200 status && ltb status 300

unfoldable pub decode {ℓ} :
    {A : Type ℓ} → (List ℕ → Option Envelope) → (Value → Option A) → ℕ → List ℕ → Answered A
decode from_slice from_value status bytes = elim (from_slice bytes) [
  | none ↦ err invalid_response
  | some envelope ↦
      if not (is_success status) || not envelope.success || not (is_nil envelope.errors)
      then err (api status (map code_of envelope.errors))
      else read from_value envelope.result_info envelope.result
]

-- What the loop does with a page.
pub data Turn : Type 0 where
  malformed : Turn
  last_page : Turn
  further : ℕ → Turn

-- `page.checked_add(1)` of a `u32`
unfoldable pub next_page : ℕ → Turn
next_page page = if ltb (page + 1) (2 ^ 32) then further (page + 1) else malformed

unfoldable pub turn {ℓ} : {A : Type ℓ} → ℕ → List A → Option PageInfo → Turn
turn page result none = malformed
turn page result (some info) =
    if info.page != page || (info.total_pages == 0 && not (is_nil result))
    then malformed
    else (if leb info.total_pages page then last_page else next_page page)

module _ {ℓ κ} {S : Type ℓ} {A : Type κ}
    (fetch : ℕ → S → Reply S CloudflareError (List A × Option PageInfo)) where
  -- The loop of `list`, which asks for a page by `fetch`. `none` is a run out of fuel.
  unfoldable pub pages : ℕ → ℕ → List A → S → Option (Reply S CloudflareError (List A))
  pages zero page records s = none
  pages (suc fuel) page records s = elim (fetch page s) [
    | errored e s' ↦ some (errored e s')
    | returned (result, info) s' ↦ elim (turn page result info) [
      | malformed ↦ some (errored invalid_response s')
      | last_page ↦ some (returned (records ++ result) s')
      | further page' ↦ pages fuel page' (records ++ result) s'
    ]
  ]

module _ (T : Transport) (self : Cloudflare T) where
  abbrev Call {ℓ} : Type ℓ → Type ℓ
  Call A = T.State → Reply T.State CloudflareError A

  abbrev pub url : List Text → T.Url
  url path = T.extend self.base_url path

  -- `get` and `delete` with the token.
  abbrev bare : Method → List Text → List (Text × ℕ) → Request T.Url
  bare method path query = record {
    method = method;
    url = url path;
    bearer = self.token;
    query = query;
    json = none;
  }

  unfoldable pub record_request : Method → Text → Option Text → Record → Result Text (Request T.Url)
  record_request method zone_id record_id r =
      let path = codes "zones" ∷ zone_id ∷ codes "dns_records" ∷ [] in
      let path : List Text = elim record_id [ none ↦ path | some id ↦ path ++ (id ∷ []) ] in
      T.build (record {
        method = method;
        url = url path;
        bearer = self.token;
        query = [];
        json = some (record {
          name = r.name;
          record_type = r.record_type;
          content = if is_none r.extra then some r.content else none;
          ttl = r.ttl;
          priority = r.priority;
          extra = r.extra;
          proxied = false;
          comment = r.comment;
        });
      })

  unfoldable pub execute {ℓ} :
      {A : Type ℓ} → (Value → Option A) → Request T.Url → Call (A × Option PageInfo)
  execute from_value request s = elim (T.execute request s) [
    | errored e s' ↦ errored (http e) s'
    | returned response s' ↦ elim (T.bytes response s') [
      | errored e s'' ↦ errored (http e) s''
      | returned bytes s'' ↦ elim (decode T.envelope_of from_value (T.status response) bytes) [
        | err e ↦ errored e s''
        | ok a ↦ returned a s''
      ]
    ]
  ]

  -- `request.build()?` and `execute(request).await?`
  abbrev pub sent {ℓ} :
      {A : Type ℓ} → (Value → Option A) → Result Text (Request T.Url) → Call (A × Option PageInfo)
  sent from_value (err e) s = errored (http e) s
  sent from_value (ok request) s = execute from_value request s

  -- `.0`
  abbrev pub first_of {ℓ} :
      {A : Type ℓ}
      → Reply T.State CloudflareError (A × Option PageInfo)
      → Reply T.State CloudflareError A
  first_of (returned (a, _) s) = returned a s
  first_of (errored e s) = errored e s

  unfoldable pub get_record : Text → Text → Call DnsRecord
  get_record zone_id record_id s = first_of (
      sent T.record_of
        (T.build (bare get (codes "zones" ∷ zone_id ∷ codes "dns_records" ∷ record_id ∷ []) [])) s)

  unfoldable pub fetch_page {ℓ} :
      {A : Type ℓ} → (Value → Option (List A)) → List Text → ℕ → Call (List A × Option PageInfo)
  fetch_page from_value path page =
      sent from_value
        (T.build (bare get path ((codes "page", page) ∷ (codes "per_page", 100) ∷ [])))

  -- The fuel is one more than the pages that a `u32` can number from 1.
  unfoldable pub list {ℓ} :
      {A : Type ℓ}
      → (Value → Option (List A))
      → List Text
      → T.State
      → Option (Reply T.State CloudflareError (List A))
  list from_value path s = pages (fetch_page from_value path) (2 ^ 32) 1 [] s

  unfoldable pub create_record : Text → Record → Call DnsRecord
  create_record zone_id r s = first_of (sent T.record_of (record_request post zone_id none r) s)

  unfoldable pub update_record : Text → Text → Record → Call DnsRecord
  update_record zone_id record_id r s =
      first_of (sent T.record_of (record_request put zone_id (some record_id) r) s)

  abbrev forget {ℓ} :
      {A : Type ℓ} → Reply T.State CloudflareError A → Reply T.State CloudflareError (Unit {0})
  forget (returned _ s) = returned tt s
  forget (errored e s) = errored e s

  unfoldable pub delete_record : Text → Text → Call (Unit {0})
  delete_record zone_id record_id s = forget (
      sent some
        (T.build (bare delete (codes "zones" ∷ zone_id ∷ codes "dns_records" ∷ record_id ∷ []) []))
        s)
