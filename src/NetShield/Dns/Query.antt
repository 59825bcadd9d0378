-- ===== src/NetShield/Dns/Query.antt =====
-- Parsing a DNS query: no buffer makes it panic or loop.
use holy_blocker.Shared.Buffer.{u16_at-Safe, get_byte-Safe, get_slice-Safe}
use holy_blocker.NetShield.Utf8.{from_utf8}
use holy_blocker.NetShield.Dns.{
  suc, [], length, List, lift, Outcome, Bytes, ℕ, Reading, read_label, read_round, read_labels,
  read_name, read_question, parse_query_with_end,
}
use holy_blocker.Shared.{zero, ◌+◌, arith, ◌≤◌, Safe, ◌<◌}

-- What a parsed name or question says of its end.
abbrev pub EndsIn {ℓ} : {A : Type ℓ} → ℕ → ℕ → A × ℕ → Type 0
EndsIn from len p = (from < p.1) × (p.1 ≤ len)

lift_text-Safe : (bytes : Bytes) → Safe (λ _. Unit {0}) (lift (from_utf8 bytes))
unfolding from_utf8
lift_text-Safe bytes = ground arith

read_label-EndsIn :
    (msg : Bytes) (r : Reading) (len : ℕ) (next : Reading → Outcome (List Bytes × ℕ))
    → ((q : Reading)
        → r.pos < q.pos
        → r.wire_len < q.wire_len
        → q.wire_len ≤ 255
        → Safe (EndsIn r.pos (length msg)) (next q))
    → Safe (EndsIn r.pos (length msg)) (read_label msg r len next)
unfolding read_label
read_label-EndsIn msg r len next k = grind (arith, get_slice-Safe, lift_text-Safe)

read_round-EndsIn :
    (msg : Bytes) (r : Reading) (next : Reading → Outcome (List Bytes × ℕ))
    → ((q : Reading)
        → r.pos < q.pos
        → r.wire_len < q.wire_len
        → q.wire_len ≤ 255
        → Safe (EndsIn r.pos (length msg)) (next q))
    → Safe (EndsIn r.pos (length msg)) (read_round msg r next)
unfolding read_round
read_round-EndsIn msg r next k = grind (arith, get_byte-Safe, read_label-EndsIn)

EndsIn-earlier :
    (m : Outcome (List Bytes × ℕ)) (from from' len : ℕ)
    → from' < from
    → Safe (EndsIn from len) m
    → Safe (EndsIn from' len) m
EndsIn-earlier m from from' len h s = ground arith

read_labels-EndsIn :
    (rounds : ℕ) (msg : Bytes) (r : Reading)
    → 255 < r.wire_len + rounds
    → 0 < rounds
    → Safe (EndsIn r.pos (length msg)) (read_labels rounds msg r)
unfolding read_labels
read_labels-EndsIn zero msg r enough some_round = absurd (omega arith)
read_labels-EndsIn (suc rounds) msg r enough some_round =
    read_round-EndsIn msg r (read_labels rounds msg) λ q later longer fits.
      EndsIn-earlier _ q.pos r.pos (length msg) later
        (read_labels-EndsIn rounds msg q (omega arith) (omega arith))

read_name-EndsIn : (msg : Bytes) (pos : ℕ) → Safe (EndsIn pos (length msg)) (read_name msg pos)
unfolding read_name
read_name-EndsIn msg pos =
    let start : Reading = record { pos = pos; wire_len = 0; labels = [] } in
    ground (arith, read_labels-EndsIn 257 msg start (omega arith) (omega arith))

read_question-EndsIn :
    (msg : Bytes) (id : ℕ) (name : Bytes) (after_name : ℕ)
    → Safe (EndsIn after_name (length msg)) (read_question msg id name after_name)
unfolding read_question
read_question-EndsIn msg id name after_name = grind (arith, u16_at-Safe)

-- No buffer makes the parsing of a query panic or run out of rounds, and the question that it finds
-- ends behind the header and inside the buffer.
pub parse_query_with_end-EndsIn :
    (msg : Bytes) → Safe (EndsIn 12 (length msg)) (parse_query_with_end msg)
unfolding parse_query_with_end
parse_query_with_end-EndsIn msg = grind (arith, u16_at-Safe, read_name-EndsIn, read_question-EndsIn)
