-- ===== src/Sync/Rows.antt =====
-- What the functions of src/sync.rs keep of every row of the table: what does not depend on the
-- provider's record.
use vercel_ddns.Base.{All}
use vercel_ddns.Storage.{Record, Database}
use vercel_ddns.Storage.Constraints.{IsConsistent}
use vercel_ddns.Storage.Consistent.{
  list_all, get_one, execute-IsConsistent, set_provider_id-IsConsistent,
  clear_provider_id-IsConsistent, delete-IsConsistent,
}
use vercel_ddns.Storage.Everywhere.{
  IsUnlinked, list-All, get-All, set_provider_id-All, clear_provider_id-All, delete-All,
}
use vercel_ddns.Sync.Keeps.{IsClosed}

module _ (P : Record → Type 0) (unlinked : IsUnlinked P) where
  pub record IsKept (db : Database) : Type 0 where
    pub consistent : IsConsistent db
    pub rows : All P db.rows

  pub IsKept-IsClosed : IsClosed IsKept
  IsKept-IsClosed = record {
    listed = λ db h. record {
      consistent = execute-IsConsistent list_all db h.consistent;
      rows = list-All P db h.rows;
    };
    got = λ db id h. record {
      consistent = execute-IsConsistent (get_one id) db h.consistent;
      rows = get-All P db h.rows id;
    };
    linked = λ db id zone p h. record {
      consistent = set_provider_id-IsConsistent db h.consistent id zone p;
      rows = set_provider_id-All P db h.rows unlinked id zone p;
    };
    cleared = λ db id h. record {
      consistent = clear_provider_id-IsConsistent db h.consistent id;
      rows = clear_provider_id-All P db h.rows unlinked id;
    };
    deleted = λ db id h. record {
      consistent = delete-IsConsistent db h.consistent id;
      rows = delete-All P db h.rows id;
    };
  }

pub IsConsistent-IsClosed : IsClosed IsConsistent
IsConsistent-IsClosed = record {
  listed = λ db h. execute-IsConsistent list_all db h;
  got = λ db id h. execute-IsConsistent (get_one id) db h;
  linked = λ db id zone p h. set_provider_id-IsConsistent db h id zone p;
  cleared = λ db id h. clear_provider_id-IsConsistent db h id;
  deleted = λ db id h. delete-IsConsistent db h id;
}
