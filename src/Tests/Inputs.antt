-- ===== src/Tests/Inputs.antt =====
-- Inputs of the API, and the table that they are written to.
use vercel_ddns.Base.{
  ◌≡◌, ◌≢◌, ◌⊎◌, refl, arith, codes, All, none, some, List, [], ◌∷◌, text_eq, option_eq, nat_eq,
}
use vercel_ddns.Base.Int.{pos, int_eq}
use vercel_ddns.Base.Outcome.{ok, errored}
use vercel_ddns.Base.Strings
use vercel_ddns.Net.Ipv6.{IsLawful}
use vercel_ddns.Storage
use vercel_ddns.Storage.{
  RecordInput, Record, find_row, Database, DbError, unique_violation, check_violation,
}
use vercel_ddns.Storage.Constraints.{IsConsistent}
use vercel_ddns.Storage.Consistent.{Statement, execute_all, insert, edit, link, unlink, remove}
use vercel_ddns.Storage.Versions.{IsSteady, IsUntouched}
use vercel_ddns.Storage.Steady.{Spares, IsEdited, execute_all-IsSteady}
use vercel_ddns.Sync.Matching
use vercel_ddns.Sync.Run.Answers.{IsReady}
use vercel_ddns.Api.Validate
use vercel_ddns.Api.Validate.{validate}
use vercel_ddns.Api.Validate.Stability.{validate_idem}
use vercel_ddns.Api.Validate.Rows.{IsValidated, IsReady-IsValidated, Readable}
use vercel_ddns.Api.Validate.Accepted.{create-validate}
use vercel_ddns.Tests.Fixtures.{loopback, host, database}

abbrev pub typed : RecordInput
typed = record {
  fqdn = codes " A.b.c. ";
  record_type = codes "a";
  value = none;
  ttl = pos 60;
  priority = none;
  weight = none;
  port = none;
}

abbrev kept : RecordInput
kept = record typed { fqdn = codes "a.b.c"; record_type = codes "A" }

pub loopback-IsLawful : IsLawful loopback
unfolding Strings.trim Strings.trim_end_matches Strings.trim_start_matches Strings.is_whitespace
loopback-IsLawful = record { parse-display = λ a. refl; trim-display = λ a. refl }

typed_valid : validate loopback typed ≡ ok kept
unfolding validate Validate.check_input Validate.valid_name Strings.split Strings.to_ascii_lowercase
    Strings.trim_end_matches Strings.trim Strings.trim_start_matches Strings.is_whitespace
    Strings.lower Strings.len text_eq Validate.valid_label Strings.ends_with_char int_eq
    Matching.kind_of Strings.to_ascii_uppercase Strings.upper
typed_valid = refl

validate_idem_example : validate loopback kept ≡ ok kept
validate_idem_example = validate_idem loopback loopback-IsLawful typed typed_valid

abbrev taken : Database
taken = database (host ∷ [])

insert_refused :
    Storage.create taken kept ≡ errored unique_violation (record taken { turn = 1; next_id = 4 })
unfolding Storage.create Storage.row_check int_eq text_eq Storage.conflicts Storage.clashes
    option_eq
insert_refused = refl

create-validate_example : unique_violation ≢ check_violation
create-validate_example = create-validate loopback typed taken typed_valid insert_refused

host-IsValidated : IsValidated loopback host
unfolding Validate.check_input Validate.valid_name Strings.split Strings.len text_eq
    Validate.valid_label Strings.ends_with_char int_eq Matching.kind_of
host-IsValidated = refl

no_address : Readable loopback loopback-IsLawful host none
no_address s e = cc

IsReady-IsValidated_example : IsReady loopback none host
IsReady-IsValidated_example =
    IsReady-IsValidated loopback loopback-IsLawful host none no_address host-IsValidated

pub empty-IsConsistent : IsConsistent (database [])
empty-IsConsistent = record { checked = tt; apart = tt; issued = tt }

abbrev statements : List Statement
statements =
    link (pos 1) (codes "z") (codes "n")
    ∷ link (pos 1) (codes "z") (codes "o")
    ∷ edit (pos 1) kept
    ∷ insert (record kept { fqdn = codes "d.e" })
    ∷ link (pos 3) (codes "z") (codes "n")
    ∷ unlink (pos 3)
    ∷ remove (pos 3)
    ∷ []

spared : All (Spares (pos 1)) statements
spared = (tt, (tt, (tt, (tt, (tt, ((λ e. ground (arith, e)), ((λ e. ground (arith, e)), tt)))))))

taken-IsConsistent : IsConsistent taken
unfolding Storage.row_check int_eq text_eq Storage.conflicts
taken-IsConsistent = record {
  checked = (refl, tt);
  apart = (refl, tt);
  issued = ((1, refl, ground arith), tt);
}

host_found : find_row (pos 1) taken.rows ≡ some host
unfolding find_row int_eq nat_eq
host_found = refl

execute_all-IsSteady_example :
    (r : Record) × (find_row (pos 1) (execute_all statements taken).rows ≡ some r)
    × IsSteady host r
    × (IsUntouched host r ⊎ IsEdited (pos 1) host statements)
execute_all-IsSteady_example =
    execute_all-IsSteady statements (pos 1) taken {r = host} taken-IsConsistent spared host_found
