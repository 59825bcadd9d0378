-- ===== src/NetShield/Dns.antt =====
-- packages/net-shield/src/dns.rs: the question of a DNS query, and the refusal of a blocked name.
-- `get` out of range and the `?` operator give `missing`, an index out of range gives `panicked`.
pub mod Query
pub mod Refusal
pub mod Encode
mod Runs
use holy_blocker.Shared.Buffer.{
  byte_at, get_byte, u16_at, slice, get_slice, u16_bytes, copy_to, checked_add,
}
use holy_blocker.NetShield.Utf8.{from_utf8, to_ascii_lowercase}
use holy_blocker.Shared.{
  length, if◌then◌else◌, lift, ◌==◌, leb, found, ◌+◌, ensure, ◌>>=◌, ◌>>◌, zero, [], suc, bit_and,
  panicked, ◌++◌, bit_or, Outcome, ◌∷◌, Bytes, List, ℕ,
}
use holy_blocker.Shared.Texts.{join_dots}

abbrev pub port_dns : ℕ
port_dns = 53

abbrev pub header_len : ℕ
header_len = 12

abbrev label_kind_mask : ℕ
label_kind_mask = 0xc0

abbrev pub max_label_len : ℕ
max_label_len = 63

abbrev pub max_name_wire_len : ℕ
max_name_wire_len = 255

abbrev flag_qr : ℕ
flag_qr = 0x8000

abbrev flag_rd : ℕ
flag_rd = 0x0100

abbrev flag_ra : ℕ
flag_ra = 0x0080

abbrev opcode_mask : ℕ
opcode_mask = 0x7800

abbrev opcode_query : ℕ
opcode_query = 0

abbrev rcode_mask : ℕ
rcode_mask = 0x000f

abbrev rcode_nxdomain : ℕ
rcode_nxdomain = 3

pub record DnsQuestion : Type 0 where
  pub id : ℕ
  pub name : Bytes
  pub qtype : ℕ
  pub qclass : ℕ

-- The variables of the loop in `read_name`.
pub record Reading : Type 0 where
  pub pos : ℕ
  pub wire_len : ℕ
  pub labels : List Bytes

-- The part of a round behind a length byte that is not zero, `next` being the rounds after it.
read_label : Bytes → Reading → ℕ → (Reading → Outcome (List Bytes × ℕ)) → Outcome (List Bytes × ℕ)
read_label msg r len next = do
  ensure (leb len max_label_len)
  let wire_len = r.wire_len + 1 + len
  ensure (leb wire_len max_name_wire_len)
  end ← checked_add (r.pos + 1) len
  bytes ← get_slice msg (r.pos + 1) end
  label ← lift (from_utf8 bytes)
  next (record { pos = end; wire_len = wire_len; labels = r.labels ++ (label ∷ []) })

read_round : Bytes → Reading → (Reading → Outcome (List Bytes × ℕ)) → Outcome (List Bytes × ℕ)
read_round msg r next = do
  len_byte ← get_byte msg r.pos
  ensure (bit_and len_byte label_kind_mask == 0)
  if len_byte == 0 then found (r.labels, r.pos + 1) else read_label msg r len_byte next

-- Each round adds to `wire_len`; a loop that runs out of rounds counts as panicked.
read_labels : ℕ → Bytes → Reading → Outcome (List Bytes × ℕ)
read_labels zero msg r = panicked
read_labels (suc rounds) msg r = read_round msg r (read_labels rounds msg)

read_name : Bytes → ℕ → Outcome (Bytes × ℕ)
read_name msg pos = do
  (labels, end) ←
      read_labels (max_name_wire_len + 2) msg (record { pos = pos; wire_len = 0; labels = [] })
  found (to_ascii_lowercase (join_dots labels), end)

-- The question behind the name, which ends at `after_name`.
read_question : Bytes → ℕ → Bytes → ℕ → Outcome (DnsQuestion × ℕ)
read_question msg id name after_name = do
  end ← checked_add after_name 4
  ensure (leb end (length msg))
  qtype ← u16_at msg after_name
  qclass ← u16_at msg (after_name + 2)
  found (record { id = id; name = name; qtype = qtype; qclass = qclass }, end)

pub parse_query_with_end : Bytes → Outcome (DnsQuestion × ℕ)
parse_query_with_end msg = do
  ensure (leb header_len (length msg))
  id ← u16_at msg 0
  flags ← u16_at msg 2
  ensure (bit_and flags flag_qr == 0)
  ensure (bit_and flags opcode_mask == opcode_query)
  qdcount ← u16_at msg 4
  ensure (qdcount == 1)
  (name, after_name) ← read_name msg header_len
  read_question msg id name after_name

unfoldable pub parse_query : Bytes → Outcome DnsQuestion
parse_query msg = do (question, _) ← parse_query_with_end msg; found question

-- The flags of the refusal: OPCODE and RD echoed, QR, RA and Name Error set.
response_flags : ℕ → ℕ
response_flags flags =
    bit_or
      (bit_or (bit_or (bit_or flag_qr (bit_and flags opcode_mask)) (bit_and flags flag_rd)) flag_ra)
      (bit_and rcode_nxdomain rcode_mask)

pub nxdomain_response : Bytes → Outcome Bytes
nxdomain_response query = do
  (_, question_end) ← parse_query_with_end query
  out ← slice query 0 question_end
  flags ← u16_at out 2
  out ← copy_to out 2 (u16_bytes (response_flags flags))
  out ← copy_to out 6 (u16_bytes 0)
  out ← copy_to out 8 (u16_bytes 0)
  copy_to out 10 (u16_bytes 0)
