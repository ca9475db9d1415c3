-- ===== src/Api/Handlers/Tables.antt =====
-- The table `records` between the handlers of src/api.rs and the syncs of src/sync.rs.
use vercel_ddns.Base.{◌≡◌, sym, subst, inl, inr, none, some, arith, All, text_eq}
use vercel_ddns.Base.Int.{ℤ}
use vercel_ddns.Base.Outcome.{ok, Ran, world, Result-cases, Reply-cases}
use vercel_ddns.Net.Ipv6.{Ipv6, IsLawful}
use vercel_ddns.Storage
use vercel_ddns.Storage.{
  Record, RecordInput, Database, new_row, edited, turn_of, with_provider, without_provider, after,
}
use vercel_ddns.Storage.Constraints.{IsConsistent}
use vercel_ddns.Storage.Consistent.{create-IsConsistent, update-IsConsistent}
use vercel_ddns.Storage.Everywhere.{IsUnlinked, create-All, update-All}
use vercel_ddns.Cloudflare.Client.{Client}
use vercel_ddns.Sync.World.{World}
use vercel_ddns.Sync.Rows.{IsKept, IsKept-IsClosed}
use vercel_ddns.Sync.Keeps.{IsClosed, delete_record-Keeps}
use vercel_ddns.Api.Validate.{validate, check_input}
use vercel_ddns.Api.Validate.Stability.{validate-check_input}
use vercel_ddns.Api.Validate.Rows.{IsValidated}
use vercel_ddns.Api.Handlers.{create_record, update_record, edit, delete_record}

-- The schema's constraints hold, and every row holds an input that `validate` returns.
pub record IsWellFormed (V : Ipv6) (db : Database) : Type 0 where
  pub consistent : IsConsistent db
  pub valid : All (IsValidated V) db.rows

IsValidated-IsUnlinked : (V : Ipv6) → IsUnlinked (IsValidated V)
IsValidated-IsUnlinked V = record { link = λ r now zone p h. h; unlink = λ r now h. h }

module _ (V : Ipv6) where
  abbrev Kept : Database → Type 0
  Kept = IsKept (IsValidated V) (IsValidated-IsUnlinked V)

  IsKept-IsWellFormed : (db : Database) → IsWellFormed V db → Kept db
  IsKept-IsWellFormed db h = record { consistent = h.consistent; rows = h.valid }

  IsWellFormed-IsKept : (db : Database) → Kept db → IsWellFormed V db
  IsWellFormed-IsKept db h = record { consistent = h.consistent; valid = h.rows }

  pub IsWellFormed-IsClosed : IsClosed (IsWellFormed V)
  IsWellFormed-IsClosed =
      let closed = IsKept-IsClosed (IsValidated V) (IsValidated-IsUnlinked V) in
      record {
        listed = λ db h. IsWellFormed-IsKept _ (closed.listed db (IsKept-IsWellFormed db h));
        got = λ db id h. IsWellFormed-IsKept _ (closed.got db id (IsKept-IsWellFormed db h));
        linked = λ db id zone p h.
            IsWellFormed-IsKept _ (closed.linked db id zone p (IsKept-IsWellFormed db h));
        cleared =
            λ db id h. IsWellFormed-IsKept _ (closed.cleared db id (IsKept-IsWellFormed db h));
        deleted =
            λ db id h. IsWellFormed-IsKept _ (closed.deleted db id (IsKept-IsWellFormed db h));
      }

module _ (V : Ipv6) (L : IsLawful V) where
  create-IsWellFormed :
      (raw input : RecordInput) (db : Database)
      → validate V raw ≡ ok input
      → IsWellFormed V db
      → IsWellFormed V (after (Storage.create db input))
  create-IsWellFormed raw input db e h = record {
    consistent = create-IsConsistent db h.consistent input;
    valid = create-All (IsValidated V) db h.valid input (validate-check_input V L raw e);
  }

  update-IsWellFormed :
      (raw input : RecordInput) (id : ℤ) (db : Database)
      → validate V raw ≡ ok input
      → IsWellFormed V db
      → IsWellFormed V (after (Storage.update db id input))
  update-IsWellFormed raw input id db e h = record {
    consistent = update-IsConsistent db h.consistent id input;
    valid = update-All (IsValidated V) db h.valid id input (λ r old name kind.
        subst (λ i. check_input V i ≡ ok i)
          (λ i. record input { fqdn = sym name i; record_type = sym kind i })
          (validate-check_input V L raw e));
  }

  module _ (C : Client) where
    abbrev Keeps {ℓ} : {A : Type ℓ} → Ran (World C) A → Type 0
    Keeps ran = IsWellFormed V (world ran).db

    pub create_record-IsWellFormed :
        (raw : RecordInput) (w : World C) → IsWellFormed V w.db → Keeps (create_record C V raw w)
    unfolding create_record
    create_record-IsWellFormed raw w h = elim (Result-cases (validate V raw)) [
      | inr (message, e) ↦ ground arith
      | inl (input, e) ↦ ground (arith, create-IsWellFormed raw input w.db e h)
    ]

    pub update_record-IsWellFormed :
        (id : ℤ) (raw : RecordInput) (w : World C)
        → IsWellFormed V w.db
        → Keeps (update_record C V id raw w)
    unfolding update_record edit
    update_record-IsWellFormed id raw w h = elim (Result-cases (validate V raw)) [
      | inr (message, e) ↦ ground arith
      | inl (input, e) ↦
          let closed = IsWellFormed-IsClosed V in
          let read = closed.got w.db id h in
          elim (Reply-cases (Storage.get w.db id)) [
            | inr (f, db, got) ↦ ground arith
            | inl (none, db, got) ↦ ground arith
            | inl (some old, db, got) ↦
                let kept : IsWellFormed V db = ground arith in
                let wrote = update-IsWellFormed raw input id db e kept in
                elim (Reply-cases (Storage.update db id input)) [
                  | inl (none, db', ran) ↦ ground arith
                  | inl (some row, db', ran) ↦ ground arith
                  | inr (f, db', ran) ↦ ground arith
                ]
          ]
    ]

    pub delete_record-IsWellFormed :
        (id : ℤ) (w : World C) → IsWellFormed V w.db → Keeps (delete_record C id w)
    unfolding delete_record
    delete_record-IsWellFormed id w h =
        ground (arith, delete_record-Keeps C (IsWellFormed V) (IsWellFormed-IsClosed V) id w h)
