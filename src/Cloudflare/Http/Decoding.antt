-- ===== src/Cloudflare/Http/Decoding.antt =====
-- What `decode` of src/cloudflare.rs accepts.
use vercel_ddns.Base.{
  ℕ, ◌≤◌, ◌<◌, ◌≡◌, ap, subst, inl, inr, true, false, ◌||◌, not, Option, none, some, List, [], map,
  arith, Bool-cases, Option-cases, List-cases, is_nil,
}
use vercel_ddns.Base.Json.{Value}
use vercel_ddns.Base.Outcome.{ok, err}
use vercel_ddns.Cloudflare.Types.{api, invalid_response, Envelope}
use vercel_ddns.Cloudflare.Http.{Answered, code_of, is_success, decode, read}

module _ {ℓ} {A : Type ℓ} (from_slice : List ℕ → Option Envelope)
    (from_value : Value → Option A) where
  -- The answer says that the request has succeeded.
  pub record IsSuccess (envelope : Envelope) (status : ℕ) : Type 0 where
    pub low : 200 ≤ status
    pub high : status < 300
    pub success : envelope.success ≡ true
    pub errors : envelope.errors ≡ []

  pub data Decoded (status : ℕ) (bytes : List ℕ) : Answered A → Type ℓ where
    unreadable : from_slice bytes ≡ none → Decoded status bytes (err invalid_response)
    rejected :
        (envelope : Envelope)
        → from_slice bytes ≡ some envelope
        → (IsSuccess envelope status → ⊥)
        → Decoded status bytes (err (api status (map code_of envelope.errors)))
    empty :
        (envelope : Envelope)
        → from_slice bytes ≡ some envelope
        → IsSuccess envelope status
        → envelope.result ≡ none
        → Decoded status bytes (err invalid_response)
    mistyped :
        (envelope : Envelope) (v : Value)
        → from_slice bytes ≡ some envelope
        → IsSuccess envelope status
        → envelope.result ≡ some v
        → from_value v ≡ none
        → Decoded status bytes (err invalid_response)
    accepted :
        (envelope : Envelope) (v : Value) (a : A)
        → from_slice bytes ≡ some envelope
        → IsSuccess envelope status
        → envelope.result ≡ some v
        → from_value v ≡ some a
        → Decoded status bytes (ok (a, envelope.result_info))

  success_lem :
      (envelope : Envelope) (status : ℕ)
      → (not (is_success status) || not envelope.success || not (is_nil envelope.errors)) ≡ false
      → IsSuccess envelope status
  success_lem envelope status h = elim (List-cases envelope.errors) [
    | inl e ↦ record { low = ground arith; high = ground arith; success = ground arith; errors = e }
    | inr (x, xs, e) ↦ absurd (ground arith)
  ]

  failure_lem :
      (envelope : Envelope) (status : ℕ)
      → (not (is_success status) || not envelope.success || not (is_nil envelope.errors)) ≡ true
      → IsSuccess envelope status
      → ⊥
  failure_lem envelope status h fine =
      let e = ap is_nil fine.errors in ground (arith, fine.low, fine.high, fine.success)

  abbrev answer : ℕ → List ℕ → Answered A
  answer = decode from_slice from_value

  read_result :
      (status : ℕ) (bytes : List ℕ) (envelope : Envelope)
      → from_slice bytes ≡ some envelope
      → IsSuccess envelope status
      → Decoded status bytes (read from_value envelope.result_info envelope.result)
  read_result status bytes envelope got fine = elim (Option-cases envelope.result) [
    | inl missing ↦ subst (Decoded status bytes) (ground arith) (empty envelope got fine missing)
    | inr (v, there) ↦ elim (Option-cases (from_value v)) [
      | inl wrong ↦
          subst (Decoded status bytes) (ground arith) (mistyped envelope v got fine there wrong)
      | inr (a, typed) ↦
          subst (Decoded status bytes) (ground arith) (accepted envelope v a got fine there typed)
    ]
  ]

  -- An answer is accepted exactly if it can be read, has a status of success, says so itself,
  -- lists no error and holds a result of the type asked for; every other answer is an error, with
  -- the provider's own codes if the provider has rejected the request.
  pub decode-Decoded :
      (status : ℕ) (bytes : List ℕ)
      → Decoded status bytes (decode from_slice from_value status bytes)
  unfolding decode
  decode-Decoded status bytes = elim (Option-cases (from_slice bytes)) [
    | inl broken ↦ subst (Decoded status bytes) (ground arith) (unreadable broken)
    | inr (envelope, got) ↦
        elim (Bool-cases
          (not (is_success status) || not envelope.success || not (is_nil envelope.errors))) [
            | inl bad ↦
                subst (Decoded status bytes) (ground arith)
                  (rejected envelope got (failure_lem envelope status bad))
            | inr good ↦
                subst (Decoded status bytes) (ground arith)
                  (read_result status bytes envelope got (success_lem envelope status good))
          ]
  ]
