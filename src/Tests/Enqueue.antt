-- ===== src/Tests/Enqueue.antt =====
-- The enqueueing of the command of the tests.
use astra_froge.Common.{ℕ, some, Result, ok, err, refl, ◌≡◌}
use astra_froge.Schemas.{ExecutionCommand}
use astra_froge.Queue.Tables.{Tables, by_identity}
use astra_froge.Queue.Repository.{sqlite}
use astra_froge.Queue.Invariant.{IsValid}
use astra_froge.Commands.Enqueue.{Digests, enqueue}
use astra_froge.Commands.Enqueued.{enqueue-IsValid}
use astra_froge.Tests.Fixtures.{event_digest, order, empty, empty-IsValid}
use astra_froge.Tests.Market.{naturals, facts}

abbrev digests : Digests ℕ
digests = record {
  identity = λ id key source. id;
  risk_decision = λ assessment id. id;
  event = event_digest;
}

abbrev command : Result (ExecutionCommand ℕ × Tables ℕ) → ExecutionCommand ℕ
command (ok (c, db)) = c
command (err e) = order "" 0

abbrev tables : Result (ExecutionCommand ℕ × Tables ℕ) → Tables ℕ
tables (ok (c, db)) = db
tables (err e) = empty

abbrev enqueued : Result (ExecutionCommand ℕ × Tables ℕ)
enqueued = enqueue naturals digests 2 sqlite facts "a" empty (some empty)

enqueued_ok : enqueued ≡ ok (command enqueued, tables enqueued)
unfolding enqueue by_identity
enqueued_ok = refl

enqueue-IsValid_example : IsValid (tables enqueued)
enqueue-IsValid_example =
    enqueue-IsValid naturals digests 2 sqlite facts "a" empty empty (tables enqueued)
      (command enqueued) empty-IsValid enqueued_ok
