-- ===== src/Storage/Steady.antt =====
-- What the statements of src/storage.rs leave of a row, in any sequence.
use vercel_ddns.Base.{
  ℕ, ◌<◌, ◌≡◌, ◌≢◌, ◌∙◌, sym, ap, ◌⊎◌, subst, some, List, [], ◌∷◌, arith, All, text_eq, option_eq,
  Bool-cases, Option-cases, inl, inr, ◌&&◌, ◌==◌,
}
use vercel_ddns.Base.Int.{ℤ, pos, int_eq}
use vercel_ddns.Storage.Tables.{row_check, after, Record, RecordInput, Database, turn_of}
use vercel_ddns.Storage.Records.{
  conflicts, new_row, list, get, create, update, set_provider_id, clear_provider_id, delete,
  find_row, edited, with_provider, without_provider,
}
use vercel_ddns.Storage.Finding.{find_row-id, find_row-others}
use vercel_ddns.Storage.Versions.{
  IsSteady, IsUntouched, Holds, IsSteady-refl, IsUntouched-refl, IsSteady-trans, IsUntouched-trans,
  Goes-refl, kept, rewritten,
}
use vercel_ddns.Storage.Constraints.{IsConsistent}
use vercel_ddns.Storage.Consistent.{
  Statement, list_all, get_one, insert, edit, link, unlink, remove, execute, execute_all,
  execute-IsConsistent, find_row-IsBelow,
}

-- The statement neither removes the row of this ID nor takes its link away.
abbrev pub Spares : ℤ → Statement → Type 0
Spares id (unlink i) = i ≢ id
Spares id (remove i) = i ≢ id
Spares id _ = Unit

-- The statement is an edit of the row of this ID, under the row's name and type.
abbrev pub Edits : ℤ → Record → Statement → Type 0
Edits id r s =
    (v : RecordInput) × (s ≡ edit id v) × (v.fqdn ≡ r.fqdn) × (v.record_type ≡ r.record_type)

create-rows :
    (db : Database) (v : RecordInput)
    → ((after (create db v)).rows ≡ db.rows)
      ⊎ ((after (create db v)).rows ≡ new_row db.next_id (turn_of db).now v ∷ db.rows)
unfolding create
create-rows db v = elim (Bool-cases (turn_of db).up) [
  | inr down ↦ inl (ground arith)
  | inl up ↦ elim (Bool-cases (row_check (new_row db.next_id (turn_of db).now v))) [
    | inr bad ↦ inl (ground arith)
    | inl fine ↦ elim (Bool-cases (conflicts (new_row db.next_id (turn_of db).now v) db.rows)) [
      | inl taken ↦ inl (ground arith)
      | inr free ↦ inr (ground arith)
    ]
  ]
]

find_row-cons :
    (id : ℤ) (row : Record) (rows : List Record)
    → row.id ≢ id
    → find_row id (row ∷ rows) ≡ find_row id rows
unfolding find_row
find_row-cons id row rows other = ground arith

-- An ID that the sequence has not issued yet.
pos-fresh : (n m : ℕ) → n < m → pos m ≢ pos n
pos-fresh n m below e = ground (arith, below, e)

execute-Holds :
    (s : Statement) (id : ℤ) (r : Record) (db : Database)
    → IsConsistent db
    → Spares id s
    → find_row id db.rows ≡ some r
    → Holds (Edits id r s) id r (execute s db)
unfolding list get create update set_provider_id clear_provider_id delete
execute-Holds list_all id r db c free at =
    kept (Edits id r list_all) id r db (after (list db)) at (ground arith)
execute-Holds (get_one i) id r db c free at =
    kept (Edits id r (get_one i)) id r db (after (get db i)) at (ground arith)
execute-Holds (insert v) id r db c free at =
    let ((n, named, below), found) = find_row-IsBelow db.next_id id db.rows c.issued at in
    let row = new_row db.next_id (turn_of db).now v in
    let other : row.id ≢ id = λ e. pos-fresh n db.next_id below (e ∙ sym found ∙ named) in
    elim (create-rows db v) [
      | inl same ↦ kept (Edits id r (insert v)) id r db (after (create db v)) at same
      | inr more ↦ (
        r,
        subst (λ rows. find_row id rows ≡ some r) (sym more)
            (find_row-cons id row db.rows other ∙ at),
        Goes-refl (Edits id r (insert v)) r,
      )
    ]
execute-Holds (edit i v) id r db c free at =
    let E = Edits id r (edit i v) in
    elim (Option-cases (find_row i db.rows)) [
      | inl gone ↦ kept E id r db (after (update db i v)) at (ground arith)
      | inr (old, found) ↦
          elim (Bool-cases (old.fqdn == v.fqdn && old.record_type == v.record_type)) [
            | inr unlike ↦ kept E id r db (after (update db i v)) at (ground arith)
            | inl like ↦
                let row = edited (turn_of db).now v old in
                let named = find_row-id i db.rows found in
                rewritten E id r row db (after (update db i v)) at (ground arith) (λ e.
                  let same : old ≡ r = ground (arith, named, e, at, found) in
                  let that : i ≡ id = sym named ∙ e in
                  (
                    record {
                      fqdn = ap (λ (x : Record). x.fqdn) same;
                      record_type = ap (λ (x : Record). x.record_type) same;
                      created_at = ap (λ (x : Record). x.created_at) same;
                      linked = inr (
                        ap (λ (x : Record). x.zone_id) same,
                        ap (λ (x : Record). x.provider_record_id) same,
                      );
                    },
                    inr (
                      v,
                      ap (λ i. edit i v) that,
                      sym (ground arith) ∙ ap (λ (x : Record). x.fqdn) same,
                      sym (ground arith) ∙ ap (λ (x : Record). x.record_type) same,
                    ),
                  ))
          ]
    ]
execute-Holds (link i zone p) id r db c free at =
    let E = Edits id r (link i zone p) in
    elim (Option-cases (find_row i db.rows)) [
      | inl gone ↦ kept E id r db (after (set_provider_id db i zone p)) at (ground arith)
      | inr (old, found) ↦ elim (Option-cases old.provider_record_id) [
        | inr (p', taken) ↦ kept E id r db (after (set_provider_id db i zone p)) at (ground arith)
        | inl unlinked ↦
            let row = with_provider (turn_of db).now zone p old in
            let named = find_row-id i db.rows found in
            rewritten E id r row db (after (set_provider_id db i zone p)) at (ground arith) (λ e.
              let same : old ≡ r = ground (arith, named, e, at, found) in
              (
                record {
                  fqdn = ap (λ (x : Record). x.fqdn) same;
                  record_type = ap (λ (x : Record). x.record_type) same;
                  created_at = ap (λ (x : Record). x.created_at) same;
                  linked = inl (sym (ap (λ (x : Record). x.provider_record_id) same) ∙ unlinked);
                },
                inl (record {
                  value = ap (λ (x : Record). x.value) same;
                  ttl = ap (λ (x : Record). x.ttl) same;
                  priority = ap (λ (x : Record). x.priority) same;
                  weight = ap (λ (x : Record). x.weight) same;
                  port = ap (λ (x : Record). x.port) same;
                }),
              ))
      ]
    ]
execute-Holds (unlink i) id r db c free at =
    let E = Edits id r (unlink i) in
    elim (Option-cases (find_row i db.rows)) [
      | inl gone ↦ kept E id r db (after (clear_provider_id db i)) at (ground arith)
      | inr (old, found) ↦
          let row = without_provider (turn_of db).now old in
          let named = find_row-id i db.rows found in
          rewritten E id r row db (after (clear_provider_id db i)) at (ground arith)
            (λ e. absurd (free (sym named ∙ e)))
    ]
execute-Holds (remove i) id r db c free at = (
  r,
  ground (arith, at, find_row-others id i db.rows (λ e. free (sym e))),
  Goes-refl (Edits id r (remove i)) r,
)

-- One of the statements is an edit of the row of this ID, under the row's name and type.
abbrev pub IsEdited : ℤ → Record → List Statement → Type 0
IsEdited id r [] = ⊥
IsEdited id r (s ∷ ss) = Edits id r s ⊎ IsEdited id r ss

IsEdited-IsSteady :
    (ss : List Statement) (id : ℤ) (r r' : Record)
    → IsSteady r r'
    → IsEdited id r' ss
    → IsEdited id r ss
IsEdited-IsSteady [] id r r' same none_left = none_left
IsEdited-IsSteady (s ∷ ss) id r r' same (inl (v, e, name, kind)) =
    inl (v, e, name ∙ same.fqdn, kind ∙ same.record_type)
IsEdited-IsSteady (s ∷ ss) id r r' same (inr later) = inr (IsEdited-IsSteady ss id r r' same later)

-- Whatever statements the program sends to a consistent table, and whichever of them fail: a row
-- that they neither remove nor unlink is still there under its ID, with its name, its type and its
-- time of creation, and once it is linked to a record of the provider it stays linked to that one.
-- Its value, TTL, priority, weight and port are what they were, unless one of the statements edits
-- it under its own name and type.
pub execute_all-IsSteady :
    (ss : List Statement) (id : ℤ) (db : Database) {r : Record}
    → IsConsistent db
    → All (Spares id) ss
    → find_row id db.rows ≡ some r
    → (r' : Record) × (find_row id (execute_all ss db).rows ≡ some r')
      × IsSteady r r'
      × (IsUntouched r r' ⊎ IsEdited id r ss)
execute_all-IsSteady [] id db {r} c free at = (r, at, IsSteady-refl r, inl (IsUntouched-refl r))
execute_all-IsSteady (s ∷ ss) id db {r} c (one, free) at =
    let (r', at', (first, before)) = execute-Holds s id r db c one at in
    let (r'', at'', rest, later) =
      execute_all-IsSteady ss id (execute s db) {r = r'} (execute-IsConsistent s db c) free at' in
    (
      r'',
      at'',
      IsSteady-trans r r' r'' first rest,
      elim before [
        | inr edits ↦ inr (inl edits)
        | inl same ↦ elim later [
          | inl same' ↦ inl (IsUntouched-trans r r' r'' same same')
          | inr edits ↦ inr (inr (IsEdited-IsSteady ss id r r' first edits))
        ]
      ],
    )
