-- ===== src/Api/Validate/Accepted.antt =====
-- Results of `validate` in src/api.rs, as the schema checks them.
use vercel_ddns.Base.{
  ℕ, ◌≡◌, ◌≢◌, sym, subst, ◌⊎◌, refl, inl, inr, Text, true, Option, none, some, arith, text_eq,
}
use vercel_ddns.Base.Outcome.{ok, errored}
use vercel_ddns.Net.Ipv6.{Ipv6}
use vercel_ddns.Storage
use vercel_ddns.Storage.{
  Record, RecordInput, Database, DbError, check_violation, new_row, row_check, is_u16, is_none,
  is_some, ttl_check,
}
use vercel_ddns.Sync.Matching.{Kind, kind_of}
use vercel_ddns.Api.Validate.{validate, normalized, check_value}
use vercel_ddns.Api.Validate.Stability.{
  Passes, check_input-eq-ok, check_value-SameBut, Passes-SameBut,
}

module _ (V : Ipv6) where
  -- An accepted input has a value, or is an A record.
  valued :
      (kind : Kind) (input : RecordInput) (value : Option Text) {out : RecordInput}
      → input.value ≡ value
      → check_value V kind input value ≡ ok out
      → (is_some out.value ≡ true) ⊎ (kind ≡ Kind.a)
  valued kind input (some v) e h = inl (ground arith)
  valued Kind.a input none e h = inr refl
  valued _ input none e h = cc

  kinds :
      (id now : ℕ) (out : RecordInput)
      → Passes out
      → (is_some out.value ≡ true) ⊎ (kind_of out.record_type ≡ Kind.a)
      → row_check (new_row id now out) ≡ true
  unfolding row_check kind_of
  kinds id now out p h = ground (arith, p.ttl, p.priority, p.port, p.weight)

  -- An input that `validate` returns passes the checks of the table, so an insert of it can fail on
  -- a clash with another row or on a server that does not answer, but on no check.
  pub create-validate :
      (input : RecordInput) {out : RecordInput} (db : Database) {e : DbError} {db' : Database}
      → validate V input ≡ ok out
      → Storage.create db out ≡ errored e db'
      → e ≢ check_violation
  unfolding validate Storage.create
  create-validate input {out} db h refused =
      let (passes, value) = check_input-eq-ok V (normalized input) h in
      let same = check_value-SameBut V _ (normalized input) _ value in
      let has = valued _ (normalized input) _ {out = out} refl value in
      let checked =
        kinds db.next_id (Storage.turn_of db).now out (Passes-SameBut same passes)
          (subst (λ t. (is_some out.value ≡ true) ⊎ (kind_of t ≡ Kind.a)) (sym same.1) has) in
      ground arith
