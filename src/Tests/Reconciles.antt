-- ===== src/Tests/Reconciles.antt =====
-- Reconciliations against the provider in memory.
use vercel_ddns.Base.{
  ◌≡◌, refl, sym, subst, inl, inr, Text, codes, true, none, some, [], ◌∷◌, arith, text_eq,
  option_eq, nat_eq, find, ◌++◌,
}
use vercel_ddns.Base.Int.{pos, int_eq, as_unsigned}
use vercel_ddns.Base.Strings
use vercel_ddns.Base.Outcome.{Ran, done, failed, world, returned}
use vercel_ddns.Net.Ipv4
use vercel_ddns.Net.Numbers
use vercel_ddns.Storage
use vercel_ddns.Storage.{Record, Database}
use vercel_ddns.Cloudflare.Types
use vercel_ddns.Cloudflare.Types.{DnsRecord}
use vercel_ddns.Sync.Matching
use vercel_ddns.Sync.Matching.Sound.{IsSound}
use vercel_ddns.Sync.Matching.Echo.{echo, echo-up_to_date}
use vercel_ddns.Sync.World.{World}
use vercel_ddns.Sync.Reconcile
use vercel_ddns.Sync.Reconcile.{Label, created, Listing, reconcile, has_remote_id}
use vercel_ddns.Sync.Reconcile.Calls.{reconcile-calls, OneWrite}
use vercel_ddns.Sync.Reconcile.Panics.{KeepsIds}
use vercel_ddns.Sync.Reconcile.Convergence.{IsFaithful, Indexed}
use vercel_ddns.Sync.Reconcile.Again.{reconcile_again, Converged}
use vercel_ddns.Sync.Reconcile.Adoption.{reconcile-IsTaken, IsTaken}
use vercel_ddns.Tests.Fixtures.{Cloud, memory, loopback, host, mail, start_world}

abbrev pub home_text : Text
home_text = codes "9.8.7.6"

pub host-IsSound : IsSound loopback host home_text
unfolding Matching.kind_of text_eq Ipv4.parse Strings.split Ipv4.parse_octet Numbers.digits
host-IsSound = record {
  ttl = (60, refl, omega arith);
  fits = (record { a = 9; b = 8; c = 7; d = 6 }, refl);
}

pub memory-KeepsIds : KeepsIds memory
memory-KeepsIds s zone id sent remote s' h = ground arith

memory-IsFaithful : IsFaithful memory
memory-IsFaithful = record {
  create-echo = λ s zone sent remote s' h.
      let e : echo s.fresh sent ≡ remote = cc in subst (λ x. x ≡ echo x.id sent) e refl;
  update-echo = λ s zone id sent remote s' h. let e : echo id sent ≡ remote = cc in sym e;
}

abbrev here : World memory
here = start_world (host ∷ mail ∷ [])

abbrev pub sent : Types.Record
sent = Matching.body host home_text none none

pub desired-host : Matching.desired host home_text ≡ some sent
unfolding Matching.desired Matching.kind_of text_eq
desired-host = refl

echo-up_to_date_example :
    (Matching.identity_matches host (echo (codes "n") sent) ≡ some true)
    × (Matching.up_to_date loopback host home_text (echo (codes "n") sent) ≡ some true)
echo-up_to_date_example =
    echo-up_to_date loopback host home_text (codes "n") {sent = sent} host-IsSound desired-host

reconcile-calls_example :
    OneWrite memory loopback host
      (codes "z")
      home_text
      []
      []
      (world (reconcile memory loopback host (codes "z") [] home_text here)).calls
reconcile-calls_example = reconcile-calls memory loopback host (codes "z") home_text [] here

-- A record of another name in the zone.
abbrev other : DnsRecord
other = record (echo (codes "m") sent) { name = codes "d.b.c" }

abbrev listing : Listing
listing = other ∷ []

listing-Indexed : Indexed listing
unfolding text_eq
listing-Indexed x (inl e) =
    subst (λ (y : DnsRecord). find (has_remote_id y.id) listing ≡ some y) (sym e) refl
listing-Indexed x (inr e) = absurd e

host_held : Storage.find_row (pos 1) (host ∷ mail ∷ []) ≡ some host
unfolding Storage.find_row int_eq
host_held = refl

fresh_here :
    (asked : Types.Record) (remote : DnsRecord) (s : Cloud)
    → memory.create_record here.cloud (codes "z") asked ≡ returned remote s
    → find (has_remote_id remote.id) listing ≡ none
unfolding text_eq
fresh_here asked remote s h =
    let e : echo (codes "n") asked ≡ remote = cc in
    subst (λ (x : DnsRecord). find (has_remote_id x.id) listing ≡ none) e refl

abbrev first : Ran (World memory) (Label × Listing)
first = reconcile memory loopback host (codes "z") listing home_text here

created_first : first ≡ done (created, listing ++ (echo (codes "n") sent ∷ [])) (world first)
unfolding Reconcile.reconcile Reconcile.find_identity Matching.identity_matches Matching.same_name
    Strings.eq_ignore_ascii_case text_eq Strings.to_ascii_lowercase Strings.trim_end_matches
    Strings.lower Reconcile.create_new Matching.desired Matching.kind_of Storage.set_provider_id
    Storage.find_row int_eq Storage.write_row Storage.row_check Storage.conflicts Storage.others
    Storage.replace_row Storage.clashes option_eq nat_eq as_unsigned
created_first = refl

reconcile_again_example :
    Converged memory loopback host
      (codes "z")
      home_text
      host-IsSound
      memory-IsFaithful
      (world first).db
      (listing ++ (echo (codes "n") sent ∷ []))
reconcile_again_example =
    reconcile_again memory loopback host (codes "z") home_text host-IsSound memory-IsFaithful
      listing here listing-Indexed fresh_here host_held created_first

-- Two values under one name: the second row finds the record of the first.
abbrev both : World memory
both = start_world (
    host
    ∷ record host {
      id = pos 2;
      value = some (codes "1.2.3.4");
      zone_id = some (codes "z");
      provider_record_id = some (codes "m");
    }
    ∷ [])

abbrev owned : DnsRecord
owned = record (echo (codes "m") sent) { content = codes "1.2.3.4" }

abbrev owner : Record
owner = record host {
  id = pos 2;
  value = some (codes "1.2.3.4");
  zone_id = some (codes "z");
  provider_record_id = some (codes "m");
}

owned-IsTaken : IsTaken both.db (pos 1) (codes "z") (codes "m") owner
unfolding Storage.find_row int_eq
owned-IsTaken = record { held = refl; apart = refl; in_zone = refl; knows = refl }

owned_first : Reconcile.find_identity host (owned ∷ []) ≡ some (some owned)
unfolding Reconcile.find_identity Matching.identity_matches Matching.same_name
    Strings.eq_ignore_ascii_case text_eq Strings.to_ascii_lowercase Strings.trim_end_matches
    Strings.lower Matching.kind_of
owned_first = refl

reconcile-IsTaken_example :
    (w' : World memory) × (reconcile memory loopback host (codes "z") (owned ∷ []) home_text both
      ≡ failed (codes "provider record ID could not be saved") w')
    × (w'.calls ≡ [])
    × (w'.db.rows ≡ both.db.rows)
reconcile-IsTaken_example =
    reconcile-IsTaken memory loopback host (codes "z") home_text (owned ∷ []) both owned owner refl
      owned_first owned-IsTaken
