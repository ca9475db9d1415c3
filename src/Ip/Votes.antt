-- ===== src/Ip/Votes.antt =====
-- The vote of `consensus_addr` in src/ip.rs.
use Prim.Native.Nat.{ℕ, ◌+◌, ◌≤◌, ◌<◌}
use vercel_ddns.Base.{
  ◌≡◌, ◌∙◌, ◌⊎◌, ◌↔◌, false, none, some, List, [], ◌∷◌, arith, ltb, max_by_key, if◌then◌else◌, ◌==◌,
  Option-cases, Bool-cases, subst, sym, inl, inr,
}
use vercel_ddns.Ip.{IpAddr, ipaddr_eq, Votes, add_vote, tally, consensus_addr, count_of}

-- How often an address was answered.
unfoldable pub votes_for : IpAddr → List IpAddr → ℕ
votes_for a [] = 0
votes_for a (b ∷ answers) = if a == b then 1 + votes_for a answers else votes_for a answers

abbrev pub Entry : IpAddr → ℕ → Votes → Type 0
Entry a n [] = ⊥
Entry a n ((b, m) ∷ votes) = ((a ≡ b) × (n ≡ m)) ⊎ Entry a n votes

-- The count that the votes hold for an address.
unfoldable pub held : IpAddr → Votes → ℕ
held a [] = 0
held a ((b, n) ∷ votes) = if a == b then n else held a votes

held-add_vote :
    (a b : IpAddr) (votes : Votes)
    → held a (add_vote b votes) ≡ (if a == b then held a votes + 1 else held a votes)
unfolding held add_vote
held-add_vote a b [] = ground arith
held-add_vote a b ((c, n) ∷ votes) = ground (arith, held-add_vote a b votes)

held-tally :
    (a : IpAddr) (answers : List IpAddr) (votes : Votes)
    → held a (tally answers votes) ≡ held a votes + votes_for a answers
unfolding tally votes_for
held-tally a [] votes = ground arith
held-tally a (b ∷ answers) votes =
    ground (arith, held-tally a answers (add_vote b votes), held-add_vote a b votes)

max_by_key-eq-none :
    (votes : Votes) (a : IpAddr) (n : ℕ) → max_by_key count_of votes ≡ none → Entry a n votes → ⊥
unfolding max_by_key
max_by_key-eq-none [] a n h e = e
max_by_key-eq-none ((c, k) ∷ votes) a n h e = ground arith

max_by_key-eq-some :
    (votes : Votes) {a : IpAddr} {n : ℕ}
    → max_by_key count_of votes ≡ some (a, n)
    → Entry a n votes × ((b : IpAddr) (m : ℕ) → Entry b m votes → m ≤ n)
unfolding max_by_key
max_by_key-eq-some [] h = cc
max_by_key-eq-some ((c, k) ∷ votes) {a} {n} h = elim (Option-cases (max_by_key count_of votes)) [
  | inl empty ↦ (
    inl (ground arith, ground arith),
    λ b m e. elim e [
      | inl here ↦ ground arith
      | inr later ↦ absurd (max_by_key-eq-none votes b m empty later)
    ],
  )
  | inr ((a', n'), got) ↦
      let (at, most) = max_by_key-eq-some votes {a = a'} {n = n'} got in
      (
        ground arith,
        λ b m e. elim e [ inl here ↦ ground arith | inr later ↦ ground (arith, most b m later) ],
      )
]

-- No address stands twice.
abbrev pub Keyed : Votes → Type 0
Keyed [] = Unit
Keyed ((a, n) ∷ votes) = ((m : ℕ) → Entry a m votes → ⊥) × Keyed votes

Entry-add_vote :
    (a b : IpAddr) (n : ℕ) (votes : Votes)
    → Entry a n (add_vote b votes)
    → (a ≡ b) ⊎ Entry a n votes
unfolding add_vote
Entry-add_vote a b n [] e = ground arith
Entry-add_vote a b n ((c, k) ∷ votes) e = ground (arith, Entry-add_vote a b n votes)

Keyed-add_vote : (b : IpAddr) (votes : Votes) → Keyed votes → Keyed (add_vote b votes)
unfolding add_vote
Keyed-add_vote b [] h = (λ m e. e, tt)
Keyed-add_vote b ((c, k) ∷ votes) (fresh, rest) = elim (Bool-cases (b == c)) [
  | inl same ↦ rw same (fresh, rest)
  | inr differ ↦ rw differ (still_fresh differ, Keyed-add_vote b votes rest)
]
  where
    still_fresh : (b == c) ≡ false → (m : ℕ) → Entry c m (add_vote b votes) → ⊥
    still_fresh differ m e = elim (Entry-add_vote c b m votes e) [
      | inl other ↦ ground arith
      | inr old ↦ fresh m old
    ]

Keyed-tally : (answers : List IpAddr) (votes : Votes) → Keyed votes → Keyed (tally answers votes)
unfolding tally
Keyed-tally [] votes h = h
Keyed-tally (a ∷ answers) votes h =
    Keyed-tally answers (add_vote a votes) (Keyed-add_vote a votes h)

held-Entry : (a : IpAddr) (n : ℕ) (votes : Votes) → Keyed votes → Entry a n votes → held a votes ≡ n
unfolding held
held-Entry a n [] h e = absurd e
held-Entry a n ((c, k) ∷ votes) (fresh, rest) (inl here) = ground arith
held-Entry a n ((c, k) ∷ votes) (fresh, rest) (inr later) =
    ground (arith, held-Entry a n votes rest later, fresh n)

Entry-held : (a : IpAddr) (votes : Votes) → 0 < held a votes → Entry a (held a votes) votes
unfolding held
Entry-held a [] h = absurd (omega arith)
Entry-held a ((c, k) ∷ votes) h = ground (arith, Entry-held a votes)

-- The order in which a map lists its entries: the same entries, in any order.
abbrev pub IsListing : (Votes → Votes) → Type 0
IsListing order = (a : IpAddr) (n : ℕ) (votes : Votes) → Entry a n (order votes) ↔ Entry a n votes

module _ (order : Votes → Votes) (answers : List IpAddr) (lists : IsListing order) where
  counted : (a : IpAddr) → held a (tally answers []) ≡ votes_for a answers
  unfolding held
  counted a = omega (arith, held-tally a answers [])

  -- The entry with the greatest count is the address with the most votes.
  winner :
      {a : IpAddr} {n : ℕ}
      → max_by_key count_of (order (tally answers [])) ≡ some (a, n)
      → (n ≡ votes_for a answers) × ((b : IpAddr) → votes_for b answers ≤ n)
  winner {a} {n} got =
      let (at, most) = max_by_key-eq-some (order (tally answers [])) {a = a} {n = n} got in
      let keyed = Keyed-tally answers [] tt in
      let exact = held-Entry a n (tally answers []) keyed ((lists a n (tally answers [])).0 at) in
      (
        sym exact ∙ counted a,
        λ b. elim (Bool-cases (ltb 0 (held b (tally answers [])))) [
          | inl named ↦
              let entry = Entry-held b (tally answers []) (ground arith) in
              omega (
                arith,
                counted b,
                most b (held b (tally answers [])) ((lists b _ (tally answers [])).1 entry),
              )
          | inr never ↦ ground (arith, counted b)
        ],
      )

  -- An address wins the vote only if at least two of the answers named it and no address was named
  -- more often, in whatever order the map lists its entries.
  pub consensus_addr-eq-some :
      {a : IpAddr}
      → consensus_addr order answers ≡ some a
      → (2 ≤ votes_for a answers) × ((b : IpAddr) → votes_for b answers ≤ votes_for a answers)
  unfolding consensus_addr
  consensus_addr-eq-some {a} h =
      elim (Option-cases (max_by_key count_of (order (tally answers [])))) [
        | inl empty ↦ absurd (ground arith)
        | inr ((c, n), got) ↦
            let (exact, most) = winner {a = c} {n = n} got in
            let same : c ≡ a = ground arith in
            let enough : 2 ≤ n = ground arith in
            subst
              (λ x.
                (2 ≤ votes_for x answers)
                × ((b : IpAddr) → votes_for b answers ≤ votes_for x answers))
              same
              (subst (λ m. (2 ≤ m) × ((b : IpAddr) → votes_for b answers ≤ m)) exact (enough, most))
      ]
