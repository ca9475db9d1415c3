-- ===== src/Assets.antt =====
-- src/assets.rs: the files of the web interface. rust-embed and mime_guess are parameters.
use vercel_ddns.Base.{
  ℕ, ◌≡◌, subst, inl, inr, Text, codes, Option, none, some, List, is_nil, if◌then◌else◌,
  Option-cases, arith, eqb,
}
use vercel_ddns.Base.Strings.{trim_start_matches}

pub record Embedded : Type 0 where
  pub get : Text → Option (List ℕ)
  pub mime : Text → Text

pub record File : Type 0 where
  pub content_type : Text
  pub bytes : List ℕ

abbrev pub index : Text
index = codes "index.html"

abbrev pub requested : Text → Text
requested path =
    let raw = trim_start_matches (λ c. eqb c b'/') path in if is_nil raw then index else raw

module _ (A : Embedded) where
  abbrev fallback : Option (List ℕ) → Option File
  fallback none = none
  fallback (some bytes) = some (record { content_type = A.mime index; bytes = bytes })

  -- The file, or none for a response with status 404.
  unfoldable pub serve : Text → Option File
  serve path = elim (A.get (requested path)) [
    | some bytes ↦ some (record { content_type = A.mime (requested path); bytes = bytes })
    | none ↦ fallback (A.get index)
  ]

  -- What a path is answered with.
  pub data Served (path : Text) : Option File → Type 0 where
    found :
        (bytes : List ℕ)
        → A.get (requested path) ≡ some bytes
        → Served path (some (record { content_type = A.mime (requested path); bytes = bytes }))
    entry :
        (bytes : List ℕ)
        → A.get (requested path) ≡ none
        → A.get index ≡ some bytes
        → Served path (some (record { content_type = A.mime index; bytes = bytes }))
    missing : A.get (requested path) ≡ none → A.get index ≡ none → Served path none

  -- A path is answered with the file it names, the index for the root; a path that names no file
  -- with the index, so that the interface's own routes work; and with 404 only if there is no
  -- index either.
  pub serve-Served : (path : Text) → Served path (serve path)
  unfolding serve
  serve-Served path = elim (Option-cases (A.get (requested path))) [
    | inl none_there ↦ elim (Option-cases (A.get index)) [
      | inl no_index ↦ subst (Served path) (ground arith) (missing none_there no_index)
      | inr (bytes, e) ↦ subst (Served path) (ground arith) (entry bytes none_there e)
    ]
    | inr (bytes, e) ↦ subst (Served path) (ground arith) (found bytes e)
  ]
