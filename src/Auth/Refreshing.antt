-- ===== src/Auth/Refreshing.antt =====
-- `Oidc::refresh_keys` of src/auth.rs among concurrent callers: each loads `last_refresh`, and a
-- later step exchanges it for the time that the caller has read, if nobody else has in between.
use vercel_ddns.Base.{
  ℕ, ◌+◌, ◌≤◌, ◌≡◌, ◌⊎◌, sym, subst, inl, inr, Option, none, some, List, [], ◌∷◌, ◌==◌, nat_eq,
  if◌then◌else◌, All, arith, Bool-cases,
}
use vercel_ddns.Auth.{is_early, compare_exchange}

-- A caller that has loaded `last` and read the time `now`.
pub record Caller : Type 0 where
  pub now : ℕ
  pub last : ℕ

-- The atomic, the callers between their two steps, and the clock readings of the callers that have
-- gone on to fetch, newest first. A caller reads the clock before it loads, so a reading may be
-- earlier than the fetch.
pub record Refreshes : Type 0 where
  pub last_refresh : ℕ
  pub callers : List Caller
  pub readings : List ℕ

-- The first half: it returns if it is too early.
unfoldable pub load : ℕ → Refreshes → Refreshes
load now s =
    if is_early now s.last_refresh
    then s
    else record s { callers = record { now = now; last = s.last_refresh } ∷ s.callers }

abbrev exchanged : Caller → Refreshes → Option ℕ → Refreshes
exchanged c s none = s
exchanged c s (some now) = record s { last_refresh = now; readings = now ∷ s.readings }

-- The second half, up to the start of the fetch.
unfoldable pub exchange : Caller → Refreshes → Refreshes
exchange c s = exchanged c s (compare_exchange c.last c.now s.last_refresh)

abbrev pub IsCaller : Caller → List Caller → Type 0
IsCaller c [] = ⊥
IsCaller c (d ∷ cs) = (c ≡ d) ⊎ IsCaller c cs

-- Callers may come with any time, and go on in any order. A caller that went on is not dropped,
-- so the runs here include every run of the source.
pub data Step (s : Refreshes) : Refreshes → Type 0 where
  loads : (now : ℕ) → Step s (load now s)
  exchanges : (c : Caller) → IsCaller c s.callers → Step s (exchange c s)

pub data Reach : Refreshes → Type 0 where
  start : Reach (record { last_refresh = 0; callers = []; readings = [] })
  next : {s t : Refreshes} → Reach s → Step s t → Reach t

-- Every reading is at least a minute after each one before it.
abbrev pub Spaced : List ℕ → Type 0
Spaced [] = Unit
Spaced (t ∷ ts) = All (λ u. u + 60 ≤ t) ts × Spaced ts

abbrev IsPatient : Caller → Type 0
IsPatient c = c.last + 60 ≤ c.now

record IsFine (s : Refreshes) : Type 0 where
  patient : All IsPatient s.callers
  past : All (λ u. u ≤ s.last_refresh) s.readings
  spaced : Spaced s.readings

member-IsPatient : (c : Caller) (cs : List Caller) → All IsPatient cs → IsCaller c cs → IsPatient c
member-IsPatient c [] h m = absurd m
member-IsPatient c (d ∷ cs) (hd, h) (inl e) = subst IsPatient (sym e) hd
member-IsPatient c (d ∷ cs) (hd, h) (inr m) = member-IsPatient c cs h m

later :
    (last now : ℕ) (ts : List ℕ)
    → last + 60 ≤ now
    → All (λ u. u ≤ last) ts
    → All (λ u. u + 60 ≤ now) ts
later last now [] far h = tt
later last now (t ∷ ts) far (ht, h) = (omega (arith, far, ht), later last now ts far h)

past_now : (now : ℕ) (ts : List ℕ) → All (λ u. u + 60 ≤ now) ts → All (λ u. u ≤ now) ts
past_now now [] h = tt
past_now now (t ∷ ts) (ht, h) = (omega (arith, ht), past_now now ts h)

load-IsFine : (now : ℕ) (s : Refreshes) → IsFine s → IsFine (load now s)
unfolding load
load-IsFine now s h = elim (Bool-cases (is_early now s.last_refresh)) [
  | inl early ↦ subst IsFine (ground arith) h
  | inr due ↦
      subst IsFine
        {x = record s { callers = record { now = now; last = s.last_refresh } ∷ s.callers }}
        (ground arith)
        (record { patient = (ground arith, h.patient); past = h.past; spaced = h.spaced })
]

exchange-IsFine :
    (c : Caller) (s : Refreshes) → IsCaller c s.callers → IsFine s → IsFine (exchange c s)
unfolding exchange
exchange-IsFine c s m h = elim (Bool-cases (s.last_refresh == c.last)) [
  | inr other ↦ subst IsFine (ground arith) h
  | inl same ↦
      let e : c.last ≡ s.last_refresh = ground arith in
      let far : s.last_refresh + 60 ≤ c.now =
        omega (arith, e, member-IsPatient c s.callers h.patient m) in
      let all = later s.last_refresh c.now s.readings far h.past in
      subst IsFine {x = record s { last_refresh = c.now; readings = c.now ∷ s.readings }}
        (ground arith)
        (record {
          patient = h.patient;
          past = (omega arith, past_now c.now s.readings all);
          spaced = (all, h.spaced);
        })
]

Step-IsFine : {s t : Refreshes} → Step s t → IsFine s → IsFine t
Step-IsFine {s} (loads now) h = load-IsFine now s h
Step-IsFine {s} (exchanges c m) h = exchange-IsFine c s m h

Reach-IsFine : {s : Refreshes} → Reach s → IsFine s
Reach-IsFine start = record { patient = tt; past = tt; spaced = tt }
Reach-IsFine (next r st) = Step-IsFine st (Reach-IsFine r)

-- However the callers' steps interleave and whatever times they read, the clock readings with which
-- any two callers went on to fetch are at least 60 seconds apart.
pub Reach-Spaced : {s : Refreshes} → Reach s → Spaced s.readings
Reach-Spaced r = (Reach-IsFine r).spaced
