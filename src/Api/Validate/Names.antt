-- ===== src/Api/Validate/Names.antt =====
-- `valid_name` of src/api.rs and the normalisation of a name.
use vercel_ddns.Base.{
  sym, subst, ℕ, ◌≡◌, ◌≢◌, refl, inl, inr, Text, codes, Bool, true, false, ◌&&◌, ◌||◌, List, [],
  ◌∷◌, arith, All, all, eqb, ◌==◌, text_eq, Bool-cases,
}
use vercel_ddns.Base.Strings.{
  split, push_char, trim, trim_end_matches, is_whitespace, lower, to_ascii_lowercase,
}
use vercel_ddns.Base.Strings.Splitting.{split_at_sep, split_in_piece}
use vercel_ddns.Base.Strings.Trimming.{trim_of_fails}
use vercel_ddns.Api.Validate.{valid_name, valid_label, label_char, trim_dots, valid_labels}

-- What a valid name is made of: not whitespace, and in lower case.
abbrev Plain : ℕ → Type 0
Plain c = (is_whitespace c ≡ false) × (lower c ≡ c)

Plain-label_char : (owner : Bool) (c : ℕ) → label_char owner c ≡ true → Plain c
unfolding is_whitespace lower
Plain-label_char owner c h = ground arith

Plain-dot : Plain b'.'
unfolding is_whitespace lower
Plain-dot = (refl, refl)

Plain-star : Plain b'*'
unfolding is_whitespace lower
Plain-star = (refl, refl)

All-label_char : (owner : Bool) (s : Text) → all (label_char owner) s ≡ true → All Plain s
All-label_char owner [] _ = tt
All-label_char owner (c ∷ s) h =
    (Plain-label_char owner c (ground arith), All-label_char owner s (ground arith))

All-valid_label : (owner : Bool) (s : Text) → valid_label owner s ≡ true → All Plain s × (s ≢ [])
unfolding valid_label
All-valid_label owner [] h = cc
All-valid_label owner (c ∷ s) h = (All-label_char owner (c ∷ s) (ground arith), λ e. cc)

-- A label: plain and not empty.
abbrev IsLabel : Text → Type 0
IsLabel s = All Plain s × (s ≢ [])

All-valid_labels :
    (owner : Bool) (ss : List Text) → all (valid_label owner) ss ≡ true → All IsLabel ss
All-valid_labels owner [] _ = tt
All-valid_labels owner (s ∷ ss) h =
    (All-valid_label owner s (ground arith), All-valid_labels owner ss (ground arith))

All-star : IsLabel (codes "*")
All-star = ((Plain-star, tt), λ e. cc)

-- The first label of an owner name may be the star.
IsLabel-first :
    (owner : Bool) (s : Text)
    → ((owner && s == codes "*") || valid_label owner s) ≡ true
    → IsLabel s
IsLabel-first owner s h = elim (Bool-cases (valid_label owner s)) [
  | inl valid ↦ All-valid_label owner s valid
  | inr other ↦ subst IsLabel (sym (star other)) All-star
]
  where
    star : valid_label owner s ≡ false → s ≡ codes "*"
    star e = ground arith

IsLabel-valid_labels :
    (owner : Bool) (ss : List Text) → valid_labels owner ss ≡ true → All IsLabel ss
IsLabel-valid_labels owner [] _ = tt
IsLabel-valid_labels owner (s ∷ ss) h =
    (IsLabel-first owner s (ground arith), All-valid_labels owner ss (ground arith))

Plain-push_char :
    (c : ℕ) (ss : List Text) → All (All Plain) (push_char c ss) → Plain c × All (All Plain) ss
Plain-push_char c [] ((h, _), _) = (h, tt)
Plain-push_char c (s ∷ ss) ((h, hs), hss) = (h, (hs, hss))

Plain-split : (s : Text) → All (All Plain) (split b'.' s) → All Plain s
Plain-split [] _ = tt
Plain-split (c ∷ s) h = elim (Bool-cases (eqb c b'.')) [
  | inl e ↦
      let ps : All (All Plain) ([] ∷ split b'.' s) = rw (split_at_sep b'.' c s e) at h in
      (subst Plain (sym (at_dot e)) Plain-dot, Plain-split s ps.1)
  | inr e ↦
      let ps : All (All Plain) (push_char c (split b'.' s)) = rw (split_in_piece b'.' c s e) at h in
      let (hc, hs) = Plain-push_char c (split b'.' s) ps in (hc, Plain-split s hs)
]
  where
    at_dot : eqb c b'.' ≡ true → c ≡ b'.'
    at_dot e = ground arith

-- No piece after the first is empty.
abbrev TailFull : List Text → Type 0
TailFull [] = Unit
TailFull (_ ∷ ss) = All (λ s. s ≢ []) ss

TailFull-push_char : (c : ℕ) (ss : List Text) → TailFull (push_char c ss) → TailFull ss
TailFull-push_char c [] _ = tt
TailFull-push_char c (s ∷ ss) h = h

TailFull-tail : (ss : List Text) → All (λ s. s ≢ []) ss → TailFull ss
TailFull-tail [] _ = tt
TailFull-tail (s ∷ ss) (_, h) = h

not_nil : (s : Text) → All (λ s. s ≢ []) (split b'.' s) → s ≢ []
unfolding split
not_nil [] (h, _) = absurd (h refl)
not_nil (c ∷ s) _ = λ e. cc

trim_dots_step :
    (c : ℕ) (s : Text) → trim_dots s ≡ s → (eqb c b'.' ≡ true → s ≢ []) → trim_dots (c ∷ s) ≡ c ∷ s
unfolding trim_end_matches
trim_dots_step c [] e h = ground (arith, h)
trim_dots_step c (d ∷ s) e h = rw e

trim_dots-TailFull : (s : Text) → TailFull (split b'.' s) → trim_dots s ≡ s
trim_dots-TailFull [] _ = unfold trim_end_matches in refl
trim_dots-TailFull (c ∷ s) h = elim (Bool-cases (eqb c b'.')) [
  | inl e ↦
      let ps : TailFull ([] ∷ split b'.' s) = rw (split_at_sep b'.' c s e) at h in
      trim_dots_step c s (trim_dots-TailFull s (TailFull-tail _ ps)) (λ _. not_nil s ps)
  | inr e ↦
      let ps : TailFull (push_char c (split b'.' s)) = rw (split_in_piece b'.' c s e) at h in
      trim_dots_step c s (trim_dots-TailFull s (TailFull-push_char c _ ps)) (λ f. cc)
]

All-Plain : (ss : List Text) → All IsLabel ss → All (All Plain) ss
All-Plain [] _ = tt
All-Plain (s ∷ ss) ((h, _), hs) = (h, All-Plain ss hs)

All-full : (ss : List Text) → All IsLabel ss → All (λ s. s ≢ []) ss
All-full [] _ = tt
All-full (s ∷ ss) ((_, h), hs) = (h, All-full ss hs)

fails : (s : Text) → All Plain s → All (λ c. is_whitespace c ≡ false) s
fails [] _ = tt
fails (c ∷ s) ((h, _), hs) = (h, fails s hs)

lower-Plain : (s : Text) → All Plain s → to_ascii_lowercase s ≡ s
unfolding to_ascii_lowercase
lower-Plain [] _ = refl
lower-Plain (c ∷ s) ((_, h), hs) = cc (lower-Plain s hs)

IsLabel-valid_name :
    (name : Text) (owner : Bool) → valid_name name owner ≡ true → All IsLabel (split b'.' name)
unfolding valid_name
IsLabel-valid_name name owner h = IsLabel-valid_labels owner (split b'.' name) (ground arith)

-- Trimming, taking trailing dots off and lowering leave a valid name as it is.
pub valid_name-normal :
    (name : Text) (owner : Bool)
    → valid_name name owner ≡ true
    → (trim name ≡ name) × (trim_dots name ≡ name) × (to_ascii_lowercase name ≡ name)
valid_name-normal name owner h =
    let labels = IsLabel-valid_name name owner h in
    let plain = Plain-split name (All-Plain _ labels) in
    (
      trim_of_fails name (fails name plain),
      trim_dots-TailFull name (TailFull-tail _ (All-full _ labels)),
      lower-Plain name plain,
    )
