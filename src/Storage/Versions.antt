-- ===== src/Storage/Versions.antt =====
-- What a statement of src/storage.rs that writes a row leaves of the row that an ID names.
use vercel_ddns.Base.{
  ◌≡◌, ◌∙◌, refl, sym, ◌⊎◌, subst, none, some, arith, text_eq, option_eq, Bool-cases, inl, inr,
}
use vercel_ddns.Base.Int.{ℤ, int_eq}
use vercel_ddns.Storage.Tables.{row_check, after, Record, Database, spend}
use vercel_ddns.Storage.Records.{conflicts, others, replace_row, write_row, find_row}
use vercel_ddns.Storage.Finding.{find_row-replace_row, find_row-replace_row_ne}

-- A row that has kept its name, its type and its creation, and its record if it had one.
pub record IsSteady (r r' : Record) : Type 0 where
  pub fqdn : r'.fqdn ≡ r.fqdn
  pub record_type : r'.record_type ≡ r.record_type
  pub created_at : r'.created_at ≡ r.created_at
  pub linked :
      (r.provider_record_id ≡ none)
      ⊎ ((r'.zone_id ≡ r.zone_id) × (r'.provider_record_id ≡ r.provider_record_id))

-- A row that has kept what an edit may change.
pub record IsUntouched (r r' : Record) : Type 0 where
  pub value : r'.value ≡ r.value
  pub ttl : r'.ttl ≡ r.ttl
  pub priority : r'.priority ≡ r.priority
  pub weight : r'.weight ≡ r.weight
  pub port : r'.port ≡ r.port

-- How a row goes on that something may have edited.
abbrev pub Goes : Type 0 → Record → Record → Type 0
Goes E r r' = IsSteady r r' × (IsUntouched r r' ⊎ E)

abbrev pub Holds : Type 0 → ℤ → Record → Database → Type 0
Holds E id r db = (r' : Record) × (find_row id db.rows ≡ some r') × Goes E r r'

pub IsSteady-refl : (r : Record) → IsSteady r r
IsSteady-refl r = record {
  fqdn = refl;
  record_type = refl;
  created_at = refl;
  linked = inr (refl, refl);
}

pub IsUntouched-refl : (r : Record) → IsUntouched r r
IsUntouched-refl r = record {
  value = refl;
  ttl = refl;
  priority = refl;
  weight = refl;
  port = refl;
}

pub Goes-refl : (E : Type 0) (r : Record) → Goes E r r
Goes-refl E r = (IsSteady-refl r, inl (IsUntouched-refl r))

pub IsSteady-trans : (r s t : Record) → IsSteady r s → IsSteady s t → IsSteady r t
IsSteady-trans r s t f g = record {
  fqdn = g.fqdn ∙ f.fqdn;
  record_type = g.record_type ∙ f.record_type;
  created_at = g.created_at ∙ f.created_at;
  linked = linked_on f.linked g.linked;
}
  where
    linked_on :
        (r.provider_record_id ≡ none)
          ⊎ ((s.zone_id ≡ r.zone_id) × (s.provider_record_id ≡ r.provider_record_id))
        → (s.provider_record_id ≡ none)
          ⊎ ((t.zone_id ≡ s.zone_id) × (t.provider_record_id ≡ s.provider_record_id))
        → (r.provider_record_id ≡ none)
          ⊎ ((t.zone_id ≡ r.zone_id) × (t.provider_record_id ≡ r.provider_record_id))
    linked_on (inl free) later = inl free
    linked_on (inr (zone, id)) (inl free) = inl (sym id ∙ free)
    linked_on (inr (zone, id)) (inr (zone', id')) = inr (zone' ∙ zone, id' ∙ id)

pub IsUntouched-trans : (r s t : Record) → IsUntouched r s → IsUntouched s t → IsUntouched r t
IsUntouched-trans r s t f g = record {
  value = g.value ∙ f.value;
  ttl = g.ttl ∙ f.ttl;
  priority = g.priority ∙ f.priority;
  weight = g.weight ∙ f.weight;
  port = g.port ∙ f.port;
}

pub kept :
    (E : Type 0) (id : ℤ) (r : Record) (db db' : Database)
    → find_row id db.rows ≡ some r
    → db'.rows ≡ db.rows
    → Holds E id r db'
kept E id r db db' at same =
    (r, subst (λ rows. find_row id rows ≡ some r) (sym same) at, Goes-refl E r)

-- A row is written over the row of its ID.
write_row-Holds :
    (E : Type 0) (id : ℤ) (r row : Record) (db : Database)
    → find_row id db.rows ≡ some r
    → (row.id ≡ id → Goes E r row)
    → Holds E id r (after (write_row db row))
unfolding write_row
write_row-Holds E id r row db at steady = elim (Bool-cases (row_check row)) [
  | inr bad ↦ kept E id r db (after (write_row db row)) at (ground arith)
  | inl fine ↦ elim (Bool-cases (conflicts row (others row.id db.rows))) [
    | inl taken ↦ kept E id r db (after (write_row db row)) at (ground arith)
    | inr free ↦
        let written : replace_row row db.rows ≡ (after (write_row db row)).rows = ground arith in
        subst (λ rows. (r' : Record) × (find_row id rows ≡ some r') × Goes E r r') written
          (elim (int_eq.dec row.id id) [
            | yes e ↦ (row, find_row-replace_row id row db.rows e at, steady e)
            | no other ↦
                (r, find_row-replace_row_ne id row db.rows (λ e. other (sym e)) ∙ at, Goes-refl E r)
          ])
  ]
]

-- A statement that writes a new version of the row that it finds, or nothing.
pub rewritten :
    (E : Type 0) (id : ℤ) (r row : Record) (db db' : Database)
    → find_row id db.rows ≡ some r
    → (db'.rows ≡ db.rows) ⊎ (db' ≡ after (write_row (spend db) row))
    → (row.id ≡ id → Goes E r row)
    → Holds E id r db'
rewritten E id r row db db' at (inl same) steady = kept E id r db db' at same
rewritten E id r row db db' at (inr same) steady =
    subst (Holds E id r) (sym same) (write_row-Holds E id r row (spend db) at steady)
