-- ===== src/Tests/Services.antt =====
-- The service from an empty table on: a caller asks for a sync, and another creates a record.
use vercel_ddns.Base.{◌≡◌, ◌⊎◌, refl, arith, codes, none, [], ◌∷◌}
use vercel_ddns.Base.Int.{pos, int_eq}
use vercel_ddns.Base.Outcome.{done, world}
use vercel_ddns.Sync.World.{World}
use vercel_ddns.Sync.Run.{Surroundings}
use vercel_ddns.Sync.Worker.{Syncer, ask, send}
use vercel_ddns.Api.Handlers.Tables.{IsWellFormed}
use vercel_ddns.Api.Handlers.Effects.{
  Created, Updated, Refused, create_record-cases, update_record-cases,
}
use vercel_ddns.Api.Handlers
use vercel_ddns.Api.Handlers.{Response, refused}
use vercel_ddns.Sync.Delete
use vercel_ddns.Storage
use vercel_ddns.Storage.{Record, RecordInput}
use vercel_ddns.Service.{IsSane, handled, Step, Reach, here, next, init}
use vercel_ddns.Service.Safety.{IsSafe, Reach-IsSafe}
use vercel_ddns.Service.Order.{line, answered, upto, Reach-line}
use vercel_ddns.Service.Progress.{Works, Reach-answered}
use vercel_ddns.Tests.Fixtures.{memory, loopback, host, start_world}
use vercel_ddns.Tests.Inputs.{typed, empty-IsConsistent, loopback-IsLawful}
use vercel_ddns.Tests.Reconciles.{memory-KeepsIds}
use vercel_ddns.Tests.Addresses.{plain, secrets}

empty-IsWellFormed : IsWellFormed loopback (start_world []).db
empty-IsWellFormed = record { consistent = empty-IsConsistent; valid = tt }

abbrev started : Syncer memory
started = init memory loopback plain secrets 60 (start_world [])

abbrev created : Syncer memory
created = handled started (Handlers.create_record memory loopback typed (start_world []))

created-Reach : Reach memory loopback plain secrets 60 started created
created-Reach = next here (Step.calls_create typed)

Reach-IsSafe_example : IsSafe memory loopback created
Reach-IsSafe_example =
    Reach-IsSafe memory loopback loopback-IsLawful memory-KeepsIds plain secrets 60 (start_world [])
      {s = created} empty-IsWellFormed created-Reach

abbrev asked : Syncer memory
asked = ask (codes "manual") none started

abbrev quiet : Surroundings
quiet = record { started = 0; finished = 0; answers = []; order = λ votes. votes }

quiet-IsSane : (s : Syncer memory) → IsSane quiet
quiet-IsSane s = record { addresses = tt; order = λ a n votes. (λ e. e, λ e. e) }

Reach-answered_example :
    (u : Syncer memory) × Works memory loopback loopback-IsLawful memory-KeepsIds plain secrets 60
      (λ s. quiet)
      quiet-IsSane
      asked
      u
    × (answered u.sent_back ≡ upto asked.next_ticket)
Reach-answered_example =
    Reach-answered memory loopback loopback-IsLawful memory-KeepsIds plain secrets 60 (λ s. quiet)
      quiet-IsSane (start_world []) {s = asked} empty-IsWellFormed (next here Step.calls_sync)

asked-next_ticket : asked.next_ticket ≡ 1
unfolding ask send
asked-next_ticket = omega arith

create_record-cases_example :
    ((row : Record) × (input : RecordInput) × (w : World memory) × Created memory loopback typed
        (start_world [])
        row
        input
        w)
    ⊎ Refused memory
        (start_world [])
        (Handlers.create_record memory loopback typed (start_world []))
create_record-cases_example = create_record-cases memory loopback typed (start_world [])

abbrev one_row : World memory
one_row = start_world (host ∷ [])

update_record-cases_example :
    ((old : Record) × (input : RecordInput) × (w : World memory) × Updated memory loopback
        (pos 1)
        typed
        one_row
        old
        input
        w)
    ⊎ Refused memory one_row (Handlers.update_record memory loopback (pos 1) typed one_row)
update_record-cases_example = update_record-cases memory loopback (pos 1) typed one_row

abbrev not_there : Response
not_there = record { status = 409; body = codes "record not found" }

abbrev left : World memory
left = world (Handlers.delete_record memory (pos 9) one_row)

refuses : Handlers.delete_record memory (pos 9) one_row ≡ done (refused not_there) left
unfolding Handlers.delete_record Delete.delete_record Storage.get Storage.find_row int_eq
refuses = refl

Reach-line_example : line created ≡ upto created.next_ticket
Reach-line_example =
    Reach-line memory loopback loopback-IsLawful memory-KeepsIds plain secrets 60 (start_world [])
      {s = created} empty-IsWellFormed created-Reach
