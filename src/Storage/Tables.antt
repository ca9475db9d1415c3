-- ===== src/Storage/Tables.antt =====
-- The types of src/storage.rs, and the constraints of migrations/0001_cloudflare_records.sql.
use vercel_ddns.Base.{
  ℕ, ◌+◌, Text, codes, Bool, true, false, ◌&&◌, ◌||◌, Option, none, some, List, ◌==◌, text_eq,
  option_eq, if◌then◌else◌,
}
use vercel_ddns.Base.Outcome.{Reply, returned, errored}
use vercel_ddns.Base.Int.{ℤ, pos, in_range, int_eq}

pub record Record : Type 0 where
  pub id : ℤ
  pub fqdn : Text
  pub record_type : Text
  pub value : Option Text
  pub ttl : ℤ
  pub priority : Option ℤ
  pub weight : Option ℤ
  pub port : Option ℤ
  pub zone_id : Option Text
  pub provider_record_id : Option Text
  pub created_at : ℕ
  pub updated_at : ℕ

pub record RecordInput : Type 0 where
  pub fqdn : Text
  pub record_type : Text
  pub value : Option Text
  pub ttl : ℤ
  pub priority : Option ℤ
  pub weight : Option ℤ
  pub port : Option ℤ

pub record SyncRun : Type 0 where
  pub source : Text
  pub started_at : ℕ
  pub finished_at : ℕ
  pub ipv4 : Option Text
  pub created : ℤ
  pub updated : ℤ
  pub unchanged : ℤ
  pub failed : ℤ
  pub error : Option Text

-- What a statement meets: whether the server answers it, and its `now()` in seconds.
pub record Turn : Type 0 where
  pub up : Bool
  pub now : ℕ

-- The two tables, the identity sequence, the turns to come, and the order of the collation.
pub record Database : Type 0 where
  pub rows : List Record
  pub runs : List SyncRun
  pub next_id : ℕ
  pub turn : ℕ
  pub turns : ℕ → Turn
  pub collate : Text → Text → Bool

-- `sqlx::Error`
pub data DbError : Type 0 where
  unavailable row_not_found unique_violation check_violation : DbError

abbrev pub is_some {ℓ} : {A : Type ℓ} → Option A → Bool
is_some none = false
is_some (some _) = true

abbrev pub is_none {ℓ} : {A : Type ℓ} → Option A → Bool
is_none none = true
is_none (some _) = false

-- `x IS NOT NULL AND x BETWEEN 0 AND 65535`
abbrev pub is_u16 : Option ℤ → Bool
is_u16 none = false
is_u16 (some z) = in_range 0 65535 z

-- `ttl = 1 OR ttl BETWEEN 60 AND 86400`
abbrev pub ttl_check : ℤ → Bool
ttl_check z = z == pos 1 || in_range 60 86400 z

abbrev pub is_mx_or_srv : Text → Bool
is_mx_or_srv t = t == codes "MX" || t == codes "SRV"

-- The four `CHECK` constraints of `records`.
unfoldable pub row_check : Record → Bool
row_check r =
    ttl_check r.ttl
    && (is_some r.value || r.record_type == codes "A")
    && (if is_mx_or_srv r.record_type then is_u16 r.priority else is_none r.priority)
    && (if r.record_type == codes "SRV"
        then is_u16 r.weight && is_u16 r.port
        else is_none r.weight && is_none r.port)

-- `UNIQUE (zone_id, provider_record_id)`: rows with a null clash with none.
abbrev pub same_provider : Record → Record → Bool
same_provider r s =
    is_some r.zone_id
    && is_some r.provider_record_id
    && r.zone_id == s.zone_id
    && r.provider_record_id == s.provider_record_id

-- `UNIQUE NULLS NOT DISTINCT (fqdn, record_type, value)`
abbrev pub same_key : Record → Record → Bool
same_key r s = r.fqdn == s.fqdn && r.record_type == s.record_type && r.value == s.value

-- Two rows that no table may hold together.
unfoldable pub clashes : Record → Record → Bool
clashes r s = r.id == s.id || same_key r s || same_provider r s

-- The statement's turn, and the database after it.
abbrev pub turn_of : Database → Turn
turn_of db = db.turns db.turn

abbrev pub spend : Database → Database
spend db = record db { turn = db.turn + 1 }

-- The database that a statement leaves.
abbrev pub after {ℓ} : {A : Type ℓ} → Reply Database DbError A → Database
after (returned _ db) = db
after (errored _ db) = db
