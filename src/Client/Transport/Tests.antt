-- ===== src/Client/Transport/Tests.antt =====
-- A transport with one pending request.
use qptools.Prelude.{ℕ, ◌≡◌, some, [], ◌∷◌, arith}
use qptools.Prelude.Maps.{lookup, nat_key}
use qptools.Act.{Outcome}
use qptools.Client.Transport.{empty, Transport, new_transport, take_any, response_received}
use qptools.Client.Transport.Laws.{Taken, IsTransport, take_any-Taken}

-- Tag 0 is pending, and messages are numbers.
abbrev pending : Transport ℕ
pending = record new_transport { queue = (0, 0) ∷ []; channels = empty ∷ []; next_tag = 1 }

zero_only : (t ch : ℕ) → lookup t pending.queue ≡ some ch → (t ≡ 0) × (ch ≡ 0)
unfolding lookup
zero_only t ch e = ground arith

pending-IsTransport : IsTransport pending
pending-IsTransport = record {
  open_channel = λ t ch e. ground (arith, zero_only t ch e);
  apart = λ t u ch e f. ground (arith, zero_only t ch e, zero_only u ch f);
}

take_any-Taken_example : Taken pending (take_any 65535 pending)
take_any-Taken_example = take_any-Taken pending (omega arith) (omega arith)

abbrev answered : Outcome (Unit {0}) × Transport ℕ
answered = response_received 0 42 pending
