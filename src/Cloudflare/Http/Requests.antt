-- ===== src/Cloudflare/Http/Requests.antt =====
-- The requests that src/cloudflare.rs builds for the records that src/sync.rs asks for.
use vercel_ddns.Base.{
  ◌≡◌, refl, ap, inl, inr, Text, codes, false, Option, none, some, List, [], ◌∷◌, Option-cases,
  arith, if◌then◌else◌,
}
use vercel_ddns.Base.Int.{ℤ, as_u16, as_u32}
use vercel_ddns.Storage
use vercel_ddns.Storage.{is_none}
use vercel_ddns.Cloudflare.Types
use vercel_ddns.Cloudflare.Types.{RecordBody, CaaData}
use vercel_ddns.Cloudflare.Http.{
  Transport, Cloudflare, Request, Method, post, put, record_request, url, sent, first_of,
  create_record, update_record,
}
use vercel_ddns.Sync.Matching.{
  Kind, a, aaaa, caa, cname, mx, txt, srv, other, kind_of, caa_data, desired,
}

-- What a row of a kind is sent with besides its name, type and TTL. The casts of `priority`,
-- `weight` and `port` are to 16 bits.
abbrev pub Payload : Kind → Storage.Record → Text → RecordBody → Type 0
Payload caa r value b =
    (b.content ≡ none)
    × (b.priority ≡ none)
    × ((data' : CaaData) × (caa_data value ≡ some data') × (b.extra ≡ some (Types.caa data')))
Payload srv r value b =
    (b.content ≡ none)
    × (b.priority ≡ none)
    × ((priority weight port : ℤ) × (r.priority ≡ some priority)
        × (r.weight ≡ some weight)
        × (r.port ≡ some port)
        × (b.extra
            ≡ some (
                Types.srv (record {
                  priority = as_u16 priority;
                  weight = as_u16 weight;
                  port = as_u16 port;
                  target = value;
                }))))
Payload mx r value b =
    (b.content ≡ some value)
    × ((priority : ℤ) × (r.priority ≡ some priority) × (b.priority ≡ some (as_u16 priority)))
    × (b.extra ≡ none)
Payload _ r value b = (b.content ≡ some value) × (b.priority ≡ none) × (b.extra ≡ none)

abbrev body_of : Types.Record → RecordBody
body_of r = record {
  name = r.name;
  record_type = r.record_type;
  content = if is_none r.extra then some r.content else none;
  ttl = r.ttl;
  priority = r.priority;
  extra = r.extra;
  proxied = false;
  comment = r.comment;
}

desired-Payload :
    (r : Storage.Record) (value : Text) (sent : Types.Record) (kind : Kind)
    → kind_of r.record_type ≡ kind
    → desired r value ≡ some sent
    → Payload kind r value (body_of sent)
unfolding desired
desired-Payload r value sent a e h = (ground arith, ground arith, ground arith)
desired-Payload r value sent aaaa e h = (ground arith, ground arith, ground arith)
desired-Payload r value sent cname e h = (ground arith, ground arith, ground arith)
desired-Payload r value sent txt e h = (ground arith, ground arith, ground arith)
desired-Payload r value sent other e h = (ground arith, ground arith, ground arith)
desired-Payload r value sent mx e h = elim (Option-cases r.priority) [
  | inl missing ↦ absurd (ground arith)
  | inr (priority, given) ↦ (ground arith, (priority, given, ground arith), ground arith)
]
desired-Payload r value sent srv e h = elim (Option-cases r.priority) [
  | inl missing ↦ absurd (ground arith)
  | inr (priority, p) ↦ elim (Option-cases r.weight) [
    | inl missing ↦ absurd (ground arith)
    | inr (weight, w) ↦ elim (Option-cases r.port) [
      | inl missing ↦ absurd (ground arith)
      | inr (port, o) ↦
          (ground arith, ground arith, (priority, weight, port, p, w, o, ground arith))
    ]
  ]
]
desired-Payload r value sent caa e h = elim (Option-cases (caa_data value)) [
  | inl broken ↦ absurd (ground arith)
  | inr (parts, read) ↦ (ground arith, ground arith, (parts, read, ground arith))
]

desired-name :
    (r : Storage.Record) (value : Text) (sent : Types.Record)
    → desired r value ≡ some sent
    → (sent.name ≡ r.fqdn) × (sent.record_type ≡ r.record_type) × (sent.ttl ≡ as_u32 r.ttl)
unfolding desired
desired-name r value sent h = elim (Option-cases (caa_data value)) [
  | inl broken ↦ (ground arith, ground arith, ground arith)
  | inr (parts, read) ↦ (ground arith, ground arith, ground arith)
]

abbrev pub path_of : Text → Option Text → List Text
path_of zone_id none = codes "zones" ∷ zone_id ∷ codes "dns_records" ∷ []
path_of zone_id (some id) = codes "zones" ∷ zone_id ∷ codes "dns_records" ∷ id ∷ []

module _ (T : Transport) (self : Cloudflare T) where
  -- The request of a body to a zone, or to one of its records.
  abbrev pub with_body : Method → Text → Option Text → RecordBody → Request T.Url
  with_body method zone_id record_id b = record {
    method = method;
    url = url T self (path_of zone_id record_id);
    bearer = self.token;
    query = [];
    json = some b;
  }

  record_request_lem :
      (method : Method) (zone_id : Text) (record_id : Option Text) (sent : Types.Record)
      → record_request T self method zone_id record_id sent
        ≡ T.build (with_body method zone_id record_id (body_of sent))
  unfolding record_request
  record_request_lem method zone_id none sent = refl
  record_request_lem method zone_id (some id) sent = refl

  -- For what a row asks for, `create_record` sends a POST to the zone's records and `update_record`
  -- a PUT to the record, with a body of the row's name, type and TTL that does not ask for the
  -- proxy. A CAA row is sent as the parts of its value and an SRV row as its priority, weight, port
  -- and target, both without content; an MX row as its content with its priority, and any other
  -- row as its content alone.
  pub record_request-desired :
      (zone_id record_id : Text) (r : Storage.Record) (value : Text) (s : T.State)
      {wanted : Types.Record}
      → desired r value ≡ some wanted
      → (b : RecordBody) × (create_record T self zone_id wanted s
          ≡ first_of T self (sent T self T.record_of (T.build (with_body post zone_id none b)) s))
        × (update_record T self zone_id record_id wanted s
            ≡ first_of T self
                (sent T self T.record_of (T.build (with_body put zone_id (some record_id) b)) s))
        × (b.name ≡ r.fqdn)
        × (b.record_type ≡ r.record_type)
        × (b.ttl ≡ as_u32 r.ttl)
        × (b.proxied ≡ false)
        × Payload (kind_of r.record_type) r value b
  unfolding create_record update_record
  record_request-desired zone_id record_id r value s {wanted} h =
      let (name, record_type, ttl) = desired-name r value wanted h in
      (
        body_of wanted,
        ap (λ q. first_of T self (sent T self T.record_of q s))
            (record_request_lem post zone_id none wanted),
        ap (λ q. first_of T self (sent T self T.record_of q s))
            (record_request_lem put zone_id (some record_id) wanted),
        name,
        record_type,
        ttl,
        refl,
        desired-Payload r value wanted (kind_of r.record_type) refl h,
      )
