-- ===== src/Tests/Listings.antt =====
-- Lists of the provider over a transport that serves two pages, and the answers that it decodes.
use vercel_ddns.Base.{
  ℕ, ◌+◌, ◌≡◌, ◌↔◌, refl, Text, codes, true, false, text_eq, Option, none, some, List, [], ◌∷◌,
  nat_eq,
}
use vercel_ddns.Base.Json.{Value, unsigned}
use vercel_ddns.Base.Outcome.{ok, Reply, returned}
use vercel_ddns.Cloudflare.Types.{CloudflareError, Zone, Envelope}
use vercel_ddns.Cloudflare.Http.{
  Transport, Cloudflare, decode, list, pages, turn, next_page, fetch_page, execute,
}
use vercel_ddns.Cloudflare.Http.Decoding.{Decoded, decode-Decoded}
use vercel_ddns.Cloudflare.Http.Paging.{Serves}
use vercel_ddns.Cloudflare.Http.Listing.{list-returns, list-Serves}
use vercel_ddns.Base.Int.{pos, as_u32}
use vercel_ddns.Cloudflare.Http.{Method, create_record, update_record, sent, first_of}
use vercel_ddns.Cloudflare.Http.Requests.{Payload, with_body, record_request-desired}
use vercel_ddns.Cloudflare.Types
use vercel_ddns.Cloudflare.Types.{RecordBody}
use vercel_ddns.Sync.Matching
use vercel_ddns.Sync.Matching.{desired}
use vercel_ddns.Tests.Fixtures.{zone, host}

-- The envelope of a page of two, whose bytes are its number.
abbrev envelope_of : List ℕ → Option Envelope
envelope_of [] = none
envelope_of (page ∷ _) = some (record {
  success = true;
  result = some (unsigned page);
  errors = [];
  result_info = some (record { page = page; total_pages = 2 });
})

abbrev zones_of : Value → Option (List Zone)
zones_of v = some (zone ∷ [])

abbrev page_of : List (Text × ℕ) → ℕ
page_of [] = 0
page_of ((name, n) ∷ _) = n

-- Its state counts the requests.
abbrev two_pages : Transport
two_pages = record {
  Url = List Text;
  State = ℕ;
  Response = ℕ;
  extend = λ url path. path;
  build = λ request. ok request;
  execute = λ request s. returned (page_of request.query) (s + 1);
  status = λ response. 200;
  bytes = λ response s. returned (response ∷ []) s;
  envelope_of = envelope_of;
  zones_of = zones_of;
  records_of = λ v. none;
  record_of = λ v. none;
  error_text = λ e. [];
}

abbrev self : Cloudflare two_pages
self = record { token = codes "t"; base_url = [] }

abbrev zones_path : List Text
zones_path = codes "zones" ∷ []

lists_both : list two_pages self zones_of zones_path 0 ≡ some (returned (zone ∷ zone ∷ []) 2)
unfolding list pages turn next_page fetch_page execute decode nat_eq
lists_both = refl

decode-Decoded_example :
    Decoded envelope_of zones_of 200 (1 ∷ []) (decode envelope_of zones_of 200 (1 ∷ []))
decode-Decoded_example = decode-Decoded envelope_of zones_of 200 (1 ∷ [])

list-returns_example :
    (r : Reply ℕ CloudflareError (List Zone)) × (list two_pages self zones_of zones_path 0 ≡ some r)
list-returns_example = list-returns two_pages self zones_of zones_path 0

list-Serves_example :
    (list two_pages self zones_of zones_path 0 ≡ some (returned (zone ∷ zone ∷ []) 2))
    ↔ Serves (fetch_page two_pages self zones_of zones_path) 1 0 (zone ∷ zone ∷ []) 2
list-Serves_example = list-Serves two_pages self zones_of zones_path 0 2 (zone ∷ zone ∷ [])

abbrev sent_host : Types.Record
sent_host = Matching.body host (codes "9.8.7.6") none none

host-desired : desired host (codes "9.8.7.6") ≡ some sent_host
unfolding desired Matching.kind_of text_eq
host-desired = refl

record_request-desired_example :
    (b : RecordBody) × (create_record two_pages self (codes "z") sent_host 0
      ≡ first_of two_pages self (
          sent two_pages self two_pages.record_of
            (ok (with_body two_pages self Method.post (codes "z") none b))
            0))
    × (update_record two_pages self (codes "z") (codes "n") sent_host 0
        ≡ first_of two_pages self (
            sent two_pages self two_pages.record_of
              (ok (with_body two_pages self Method.put (codes "z") (some (codes "n")) b))
              0))
    × (b.name ≡ codes "a.b.c")
    × (b.record_type ≡ codes "A")
    × (b.ttl ≡ as_u32 (pos 60))
    × (b.proxied ≡ false)
    × Payload (Matching.kind_of (codes "A")) host (codes "9.8.7.6") b
record_request-desired_example =
    record_request-desired two_pages self (codes "z") (codes "n") host (codes "9.8.7.6") 0
      {wanted = sent_host} host-desired
