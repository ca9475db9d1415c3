-- ===== src/Cloudflare/Http/Paging.antt =====
-- The loop of `Cloudflare::list` in src/cloudflare.rs, and the client that it completes.
use vercel_ddns.Base.{
  ℕ, zero, suc, ◌+◌, ◌^◌, ◌<◌, ◌≤◌, ◌≡◌, ◌⊎◌, ◌∙◌, refl, sym, ap, subst, inl, inr, false, ◌&&◌,
  ◌||◌, not, Option, none, some, List, [], ◌++◌, append_assoc, ◌==◌, ◌!=◌, nat_eq, is_nil, arith,
  Bool-cases, List-cases,
}
use vercel_ddns.Base.Outcome.{Reply, returned, errored, Reply-cases}
use vercel_ddns.Cloudflare.Types.{CloudflareError, invalid_response, PageInfo}
use vercel_ddns.Cloudflare.Http.{Turn, malformed, last_page, further, next_page, turn, pages}

Turn-cases : (t : Turn) → (t ≡ malformed) ⊎ (t ≡ last_page) ⊎ ((p : ℕ) × (t ≡ further p))
Turn-cases malformed = inl refl
Turn-cases last_page = inr (inl refl)
Turn-cases (further p) = inr (inr (p, refl))

-- The page that is asked for, and a total that is 0 only of an empty list.
pub record IsPage {ℓ} {A : Type ℓ} (page : ℕ) (result : List A) (info : PageInfo) : Type ℓ where
  pub same : info.page ≡ page
  pub counted : info.total_pages ≡ 0 → result ≡ []

turn-none {ℓ} : {A : Type ℓ} (page : ℕ) (result : List A) → turn page result none ≡ malformed
unfolding turn
turn-none page result = refl

module _ {ℓ} {A : Type ℓ} (page : ℕ) (result : List A) (info : PageInfo) where
  turn-last :
      IsPage page result info → info.total_pages ≤ page → turn page result (some info) ≡ last_page
  unfolding turn
  turn-last h last = elim (List-cases result) [
    | inl e ↦ ground (arith, h.same, ap is_nil e)
    | inr (x, xs, e) ↦
        let counted : info.total_pages ≡ 0 → ⊥ =
          λ zeros. let both = sym (h.counted zeros) ∙ e in cc in
        ground (arith, h.same)
  ]

  turn-further :
      IsPage page result info
      → page < info.total_pages
      → page + 1 < 2 ^ 32
      → turn page result (some info) ≡ further (page + 1)
  unfolding turn next_page
  turn-further h more fits = ground (arith, h.same)

  IsPage_lem :
      (info.page != page || (info.total_pages == 0 && not (is_nil result))) ≡ false
      → IsPage page result info
  IsPage_lem h = record {
    same = ground arith;
    counted = λ zeros. elim (List-cases result) [
      | inl e ↦ e
      | inr (x, xs, e) ↦ let more = ap is_nil e in absurd (ground arith)
    ];
  }

  last-turn :
      turn page result (some info) ≡ last_page → IsPage page result info × (info.total_pages ≤ page)
  unfolding turn next_page
  last-turn h =
      elim (Bool-cases (info.page != page || (info.total_pages == 0 && not (is_nil result)))) [
        | inl bad ↦ absurd (ground arith)
        | inr good ↦ (IsPage_lem good, ground arith)
      ]

  further-turn :
      {p : ℕ}
      → turn page result (some info) ≡ further p
      → IsPage page result info × (page < info.total_pages) × (p ≡ page + 1) × (p < 2 ^ 32)
  unfolding turn next_page
  further-turn h =
      elim (Bool-cases (info.page != page || (info.total_pages == 0 && not (is_nil result)))) [
        | inl bad ↦ absurd (ground arith)
        | inr good ↦ (IsPage_lem good, ground arith, ground arith, ground arith)
      ]

module _ {S : Type 0} {A : Type 0}
    (fetch : ℕ → S → Reply S CloudflareError (List A × Option PageInfo)) where
  -- From a page on, the provider serves these lists, page after page up to the last one.
  pub data Serves : ℕ → S → List A → S → Type 0 where
    ends :
        {page : ℕ} {s s' : S} (result : List A) (info : PageInfo)
        → fetch page s ≡ returned (result, some info) s'
        → IsPage page result info
        → info.total_pages ≤ page
        → Serves page s result s'
    goes_on :
        {page : ℕ} {s s' s'' : S} {rest : List A} (result : List A) (info : PageInfo)
        → fetch page s ≡ returned (result, some info) s'
        → IsPage page result info
        → page < info.total_pages
        → page + 1 < 2 ^ 32
        → Serves (page + 1) s' rest s''
        → Serves page s (result ++ rest) s''

  -- Enough fuel for the pages that a `u32` can number.
  pub pages-returns :
      (fuel page : ℕ) (records : List A) (s : S)
      → page < 2 ^ 32
      → 2 ^ 32 ≤ page + fuel
      → (r : Reply S CloudflareError (List A)) × (pages fetch fuel page records s ≡ some r)
  unfolding pages
  pages-returns zero page records s fits enough = absurd (omega (arith, fits, enough))
  pages-returns (suc fuel) page records s fits enough = elim (Reply-cases (fetch page s)) [
    | inr (e, s', failed) ↦ (errored e s', ground arith)
    | inl ((result, none), s', got) ↦
        let missing = turn-none page result in (errored invalid_response s', ground arith)
    | inl ((result, some info), s', got) ↦ elim (Turn-cases (turn page result (some info))) [
      | inl bad ↦ (errored invalid_response s', ground arith)
      | inr (inl last) ↦ (returned (records ++ result) s', ground arith)
      | inr (inr (p, on)) ↦
          let (_, _, e, small) = further-turn page result info on in
          let (r, more) =
            pages-returns fuel p (records ++ result) s' small (omega (arith, e, enough)) in
          (r, ground arith)
    ]
  ]

  pub pages-Serves :
      (fuel page : ℕ) (records : List A) (s : S) {all : List A} {s' : S}
      → pages fetch fuel page records s ≡ some (returned all s')
      → (served : List A) × Serves page s served s' × (all ≡ records ++ served)
  unfolding pages
  pages-Serves zero page records s h = absurd cc
  pages-Serves (suc fuel) page records s {all} {s'} h = elim (Reply-cases (fetch page s)) [
    | inr (e, s1, failed) ↦ absurd (ground arith)
    | inl ((result, none), s1, got) ↦ let missing = turn-none page result in absurd (ground arith)
    | inl ((result, some info), s1, got) ↦ elim (Turn-cases (turn page result (some info))) [
      | inl bad ↦ absurd (ground arith)
      | inr (inl last) ↦
          let (good, least) = last-turn page result info last in
          let same : s1 ≡ s' = ground arith in
          (
            result,
            ends result info (got ∙ ap (returned (result, some info)) same) good least,
            ground arith,
          )
      | inr (inr (p, on)) ↦
          let (good, less, e, small) = further-turn page result info on in
          let (served, more, eq) =
            pages-Serves fuel p (records ++ result) s1 {all = all} {s' = s'} (ground arith) in
          (
            result ++ served,
            goes_on result info got good less (omega (arith, e, small))
                (subst (λ q. Serves q s1 served s') e more),
            eq ∙ append_assoc records result served,
          )
    ]
  ]

  pub Serves-pages :
      (fuel page : ℕ) (records : List A) (s : S) {served : List A} {s' : S}
      → page < 2 ^ 32
      → 2 ^ 32 ≤ page + fuel
      → Serves page s served s'
      → pages fetch fuel page records s ≡ some (returned (records ++ served) s')
  unfolding pages
  Serves-pages zero page records s fits enough h = absurd (omega (arith, fits, enough))
  Serves-pages (suc fuel) page records s fits enough (ends result info got good last) =
      let turns = turn-last page result info good last in ground arith
  Serves-pages (suc fuel) page records s fits enough
        (goes_on {s' = s'} {rest = rest} result info got good less small more) =
      let turns = turn-further page result info good less small in
      let rec =
        Serves-pages fuel (page + 1) (records ++ result) s' small (omega (arith, enough)) more in
      let flat = append_assoc records result rest in ground arith
