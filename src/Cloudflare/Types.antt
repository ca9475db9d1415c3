-- ===== src/Cloudflare/Types.antt =====
-- The types of src/cloudflare.rs.
use vercel_ddns.Base.{ℕ, Text, Bool, Option, List}
use vercel_ddns.Base.Json.{Value}

pub data CloudflareError : Type 0 where
  http : Text → CloudflareError
  api : ℕ → List ℕ → CloudflareError
  invalid_response : CloudflareError

pub record Zone : Type 0 where
  pub id : Text
  pub name : Text

pub record DnsRecord : Type 0 where
  pub id : Text
  pub name : Text
  pub record_type : Text
  pub content : Text
  pub ttl : ℕ
  pub proxied : Bool
  pub priority : Option ℕ
  pub extra : Option Value

pub record ApiError : Type 0 where
  pub code : ℕ

pub record PageInfo : Type 0 where
  pub page : ℕ
  pub total_pages : ℕ

pub record Envelope : Type 0 where
  pub success : Bool
  pub result : Option Value
  pub errors : List ApiError
  pub result_info : Option PageInfo

pub record SrvData : Type 0 where
  pub priority : ℕ
  pub weight : ℕ
  pub port : ℕ
  pub target : Text

pub record CaaData : Type 0 where
  pub flags : ℕ
  pub tag : Text
  pub value : Text

pub data RecordData : Type 0 where
  srv : SrvData → RecordData
  caa : CaaData → RecordData

-- What is sent. The field `extra` is `data`, here and in `DnsRecord`.
pub record Record : Type 0 where
  pub name : Text
  pub record_type : Text
  pub content : Text
  pub ttl : ℕ
  pub priority : Option ℕ
  pub extra : Option RecordData
  pub comment : Option Text

pub record RecordBody : Type 0 where
  pub name : Text
  pub record_type : Text
  pub content : Option Text
  pub ttl : ℕ
  pub priority : Option ℕ
  pub extra : Option RecordData
  pub proxied : Bool
  pub comment : Option Text
