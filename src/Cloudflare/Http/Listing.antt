-- ===== src/Cloudflare/Http/Listing.antt =====
-- `Cloudflare::list` of src/cloudflare.rs as a total function, and the interface that src/sync.rs
-- uses, filled by the client over HTTP.
use vercel_ddns.Base.{◌^◌, ◌≡◌, ◌↔◌, sym, subst, Text, codes, Option, some, List, [], ◌∷◌, arith}
use vercel_ddns.Base.Json.{Value}
use vercel_ddns.Base.Outcome.{Reply, returned}
use vercel_ddns.Cloudflare.Types.{CloudflareError, Zone, DnsRecord}
use vercel_ddns.Cloudflare.Client.{Client}
use vercel_ddns.Cloudflare.Http
use vercel_ddns.Cloudflare.Http.{Transport, Cloudflare, fetch_page, list}
use vercel_ddns.Cloudflare.Http.Paging.{Serves, pages-returns, pages-Serves, Serves-pages}

module _ (T : Transport) (self : Cloudflare T) {A : Type 0} (from_value : Value → Option (List A))
    (path : List Text) where
  -- Listing ends with a value or an error, whatever the provider answers, also one that never
  -- serves a last page.
  pub list-returns :
      (s : T.State)
      → (r : Reply T.State CloudflareError (List A)) × (list T self from_value path s ≡ some r)
  unfolding list
  list-returns s =
      pages-returns (fetch_page T self from_value path) (2 ^ 32) 1 [] s (omega arith) (omega arith)

  -- Listing returns exactly the lists that the provider serves from page 1 up to its last page,
  -- one after the other: no page is skipped, asked for twice or taken for another, and if the
  -- provider serves such pages, they are returned.
  pub list-Serves :
      (s s' : T.State) (all : List A)
      → (list T self from_value path s ≡ some (returned all s'))
        ↔ Serves (fetch_page T self from_value path) 1 s all s'
  unfolding list
  list-Serves s s' all = (
    λ h.
        let (served, serves, e) =
          pages-Serves (fetch_page T self from_value path) (2 ^ 32) 1 [] s {all = all} {s' = s'}
            h in
        subst (λ l. Serves (fetch_page T self from_value path) 1 s l s') (sym e) serves,
    λ serves.
        Serves-pages (fetch_page T self from_value path) (2 ^ 32) 1 [] s (omega arith) (omega arith)
          serves,
  )

module _ (T : Transport) (self : Cloudflare T) where
  unfoldable pub list_zones : T.State → Reply T.State CloudflareError (List Zone)
  list_zones s = (list-returns T self T.zones_of (codes "zones" ∷ []) s).0

  unfoldable pub list_records : T.State → Text → Reply T.State CloudflareError (List DnsRecord)
  list_records s zone_id =
      (list-returns T self T.records_of (codes "zones" ∷ zone_id ∷ codes "dns_records" ∷ []) s).0

  -- The client of src/cloudflare.rs is one that src/sync.rs can use.
  abbrev pub client : Client
  client = record {
    State = T.State;
    list_zones = list_zones;
    list_records = list_records;
    get_record = λ s zone_id record_id. Http.get_record T self zone_id record_id s;
    create_record = λ s zone_id r. Http.create_record T self zone_id r s;
    update_record = λ s zone_id record_id r. Http.update_record T self zone_id record_id r s;
    delete_record = λ s zone_id record_id. Http.delete_record T self zone_id record_id s;
    to_text = T.error_text;
  }
