-- ===== src/Auth/Admins.antt =====
-- Whom `claim_contains` of src/auth.rs takes for an admin.
use vercel_ddns.Base.{
  ◌≡◌, ◌⊎◌, ◌∙◌, refl, sym, subst, ap, inl, inr, Text, true, none, some, ◌==◌, text_eq, Bool-cases,
  Option-cases, arith,
}
use vercel_ddns.Base.Json.{
  Value, null, bool, unsigned, negative, float, string, array, object, Items, nil, cons, get_field,
}
use vercel_ddns.Auth.{Claims, Settings, any_string, claim_has, claim_contains, is_authorized}

-- The items hold the string.
pub data Holds (s : Text) : Items → Type 0 where
  first : {items : Items} → Holds s (cons (string s) items)
  later : {v : Value} {items : Items} → Holds s items → Holds s (cons v items)

-- No group is required, or the claim is the group's name or a list that holds it.
pub data IsAdmin (app : Settings) (claims : Claims) : Type 0 where
  anybody : app.admin_group ≡ none → IsAdmin app claims
  named :
      (group : Text)
      → app.admin_group ≡ some group
      → get_field app.admin_claim claims.additional ≡ some (string group)
      → IsAdmin app claims
  member :
      (group : Text) (items : Items)
      → app.admin_group ≡ some group
      → get_field app.admin_claim claims.additional ≡ some (array items)
      → Holds group items
      → IsAdmin app claims

any_string-Holds : (s : Text) (items : Items) → any_string s items ≡ true → Holds s items
any_string-Holds s nil h = absurd cc
any_string-Holds s (cons (string t) items) h = elim (Bool-cases (t == s)) [
  | inl same ↦
      let e : t ≡ s = ground arith in subst (λ u. Holds s (cons (string u) items)) (sym e) first
  | inr other ↦ later (any_string-Holds s items (ground arith))
]
any_string-Holds s (cons null items) h = later (any_string-Holds s items h)
any_string-Holds s (cons (bool b) items) h = later (any_string-Holds s items h)
any_string-Holds s (cons (unsigned n) items) h = later (any_string-Holds s items h)
any_string-Holds s (cons (negative n) items) h = later (any_string-Holds s items h)
any_string-Holds s (cons (float t) items) h = later (any_string-Holds s items h)
any_string-Holds s (cons (array vs) items) h = later (any_string-Holds s items h)
any_string-Holds s (cons (object fs) items) h = later (any_string-Holds s items h)

-- A claim that names the group.
Names : Text → Value → Type 0
Names group v = (v ≡ string group) ⊎ ((items : Items) × (v ≡ array items) × Holds group items)

claim_has-Names : (group : Text) (v : Value) → claim_has group (some v) ≡ true → Names group v
unfolding Names
claim_has-Names group (string s) h = let e : s ≡ group = ground arith in inl (ap string e)
claim_has-Names group (array items) h = inr (items, refl, any_string-Holds group items h)
claim_has-Names group null h = absurd cc
claim_has-Names group (bool b) h = absurd cc
claim_has-Names group (unsigned n) h = absurd cc
claim_has-Names group (negative n) h = absurd cc
claim_has-Names group (float t) h = absurd cc
claim_has-Names group (object fs) h = absurd cc

pub is_authorized-IsAdmin :
    (app : Settings) (claims : Claims) → is_authorized app claims ≡ true → IsAdmin app claims
unfolding is_authorized claim_contains Names
is_authorized-IsAdmin app claims h = elim (Option-cases app.admin_group) [
  | inl none_required ↦ anybody none_required
  | inr (group, required) ↦ elim (Option-cases (get_field app.admin_claim claims.additional)) [
    | inl missing ↦ absurd (ground arith)
    | inr (v, there) ↦ elim (claim_has-Names group v (ground arith)) [
      | inl e ↦ named group required (there ∙ ap some e)
      | inr (items, e, holds) ↦ member group items required (there ∙ ap some e) holds
    ]
  ]
]
