-- ===== src/Cloudflare/Client.antt =====
-- What src/sync.rs uses of a Cloudflare client: six calls on an unknown provider state.
-- An answer is the call's result; each call may change the provider, also one that fails.
use vercel_ddns.Base.{Text, List}
use vercel_ddns.Base.Outcome.{Reply}
use vercel_ddns.Cloudflare.Types.{CloudflareError, Zone, DnsRecord, Record}

pub record Client : Type 1 where
  pub State : Type 0
  pub list_zones : State → Reply State CloudflareError (List Zone)
  pub list_records : State → Text → Reply State CloudflareError (List DnsRecord)
  pub get_record : State → Text → Text → Reply State CloudflareError DnsRecord
  pub create_record : State → Text → Record → Reply State CloudflareError DnsRecord
  pub update_record : State → Text → Text → Record → Reply State CloudflareError DnsRecord
  pub delete_record : State → Text → Text → Reply State CloudflareError (Unit {0})
  -- `CloudflareError::to_string`
  pub to_text : CloudflareError → Text
