-- ===== src/NetShield/Dns/Refusal.antt =====
-- The NXDOMAIN response to a query that parses.
use holy_blocker.Shared.Bits.{bit_and-field, bit_or-shifted}
use holy_blocker.Shared.Buffer.{byte_at, u16_at, slice, copy_to, be16, u16_bytes}
use holy_blocker.NetShield.Dns.{
  [], found, length, ◌∷◌, Bytes, ℕ, DnsQuestion, parse_query_with_end, parse_query,
  nxdomain_response, response_flags,
}
use holy_blocker.NetShield.Dns.Query.{parse_query_with_end-EndsIn}
use holy_blocker.Shared.{
  refl, ap, Safe-found, length-take, missing, take-add, ◌++◌, ◌^◌, ◌*◌, ◌%◌, ◌-◌, drop, ◌/◌, take,
  arith, ◌+◌, ◌≤◌, ◌<◌, ◌≡◌,
}

-- QR, the OPCODE of the query, its RD bit, RA and the code of a Name Error.
response_flags_lem :
    (flags : ℕ)
    → response_flags flags ≡ 0x8000 + flags / 2048 % 16 * 2048 + flags / 256 % 2 * 256 + 0x80 + 3
unfolding response_flags
response_flags_lem flags =
    let op : ℕ = flags / 2048 % 16 in
    let rd : ℕ = flags / 256 % 2 in
    let with_op : 0x8000 + op * 2048 ≡ (16 + op) * 2 ^ 11 = omega arith in
    let with_rd : (16 + op) * 2 ^ 11 + rd * 256 ≡ (128 + op * 8 + rd) * 2 ^ 8 = omega arith in
    let with_ra : (128 + op * 8 + rd) * 2 ^ 8 + 0x80 ≡ (2 * (128 + op * 8 + rd) + 1) * 2 ^ 7 =
      omega arith in
    ground (
      arith,
      bit_and-field 4 11 flags,
      bit_and-field 1 8 flags,
      bit_or-shifted 15 1 (op * 2048) (omega arith),
      with_op,
      bit_or-shifted 11 (16 + op) (rd * 256) (omega arith),
      with_rd,
      bit_or-shifted 8 (128 + op * 8 + rd) 0x80 (omega arith),
      with_ra,
      bit_or-shifted 7 (2 * (128 + op * 8 + rd) + 1) 3 (omega arith),
    )

-- A buffer of twelve bytes or more begins with a header.
header-split :
    (P : Bytes → Type 0)
    → ((a b c d e f g h i j k l : ℕ) (rest : Bytes)
        → P (a ∷ b ∷ c ∷ d ∷ e ∷ f ∷ g ∷ h ∷ i ∷ j ∷ k ∷ l ∷ rest))
    → (msg : Bytes) → 12 ≤ length msg
    → P msg
header-split P all (a ∷ b ∷ c ∷ d ∷ e ∷ f ∷ g ∷ h ∷ i ∷ j ∷ k ∷ l ∷ rest) long =
    all a b c d e f g h i j k l rest
header-split P all _ long = absurd (omega arith)

-- What a refusal of `query` is: the ID, the question count and the question are the query's, the
-- flags are those of a Name Error, the other counts are zero, and it is not a query itself.
pub record IsRefusal (query : Bytes) (question_end : ℕ) (response : Bytes) : Type 0 where
  pub size : length response ≡ question_end
  pub same_id : take 2 response ≡ take 2 query
  pub flags :
      (n : ℕ) × (u16_at query 2 ≡ found n)
      × (take 2 (drop 2 response)
          ≡ u16_bytes (0x8000 + n / 2048 % 16 * 2048 + n / 256 % 2 * 256 + 0x80 + 3))
  pub same_question_count : take 2 (drop 4 response) ≡ take 2 (drop 4 query)
  pub no_records : take 6 (drop 6 response) ≡ 0 ∷ 0 ∷ 0 ∷ 0 ∷ 0 ∷ 0 ∷ []
  pub same_question : drop 12 response ≡ drop 12 (take question_end query)
  pub not_a_query : parse_query response ≡ missing

Refuses : Bytes → Type 0
Refuses query =
    (question : DnsQuestion) (end : ℕ)
    → 12 < end
    → end ≤ length query
    → parse_query_with_end query ≡ found (question, end)
    → (response : Bytes) × (nxdomain_response query ≡ found response) × IsRefusal query end response

module _ (a b c d e f g h i j k l : ℕ) (rest : Bytes) where
  abbrev query : Bytes
  query = a ∷ b ∷ c ∷ d ∷ e ∷ f ∷ g ∷ h ∷ i ∷ j ∷ k ∷ l ∷ rest

  -- The header of the response, before the question.
  abbrev answer : Bytes → Bytes
  answer question =
      a ∷ b ∷ (u16_bytes (response_flags (be16 c d)) ++ (e ∷ f ∷ 0 ∷ 0 ∷ 0 ∷ 0 ∷ 0 ∷ 0 ∷ question))

  nxdomain_answer :
      (question : DnsQuestion) (n : ℕ)
      → 12 + n ≤ length query
      → parse_query_with_end query ≡ found (question, 12 + n)
      → nxdomain_response query ≡ found (answer (take n rest))
  unfolding nxdomain_response slice copy_to u16_at byte_at
  nxdomain_answer question n inside parsed = ground (arith, take-add 12 n query)

  answer-missing : (question : Bytes) → parse_query (answer question) ≡ missing
  unfolding parse_query parse_query_with_end u16_at byte_at
  answer-missing question =
      let flags = response_flags (be16 c d) in
      let value = response_flags_lem (be16 c d) in
      let whole : be16 (flags / 256 % 256) (flags % 256) ≡ flags = omega (arith, value) in
      ground (arith, whole, bit_and-field 1 15 flags, value)

  answer-IsRefusal :
      (n : ℕ) → 12 + n ≤ length query → IsRefusal query (12 + n) (answer (take n rest))
  unfolding u16_at byte_at
  answer-IsRefusal n inside = record {
    size = omega (arith, length-take n rest);
    same_id = refl;
    flags = (be16 c d, refl, ap u16_bytes (response_flags_lem (be16 c d)));
    same_question_count = refl;
    no_records = refl;
    same_question = rw (take-add 12 n query);
    not_a_query = answer-missing (take n rest);
  }

  refuses : Refuses query
  unfolding Refuses
  refuses question end later inside parsed =
      let n = end - 12 in
      let whole : 12 + n ≡ end = omega arith in
      let fits : 12 + n ≤ length query = omega arith in
      (
        answer (take n rest),
        nxdomain_answer question n fits (rw whole parsed),
        rw whole at (answer-IsRefusal n fits),
      )

-- A query that parses is refused by a response of its own header and question, which carries the
-- flags of a Name Error and is not a query.
pub nxdomain_response-IsRefusal :
    (query : Bytes) {question : DnsQuestion} {end : ℕ}
    → parse_query_with_end query ≡ found (question, end)
    → (response : Bytes) × (nxdomain_response query ≡ found response) × IsRefusal query end response
unfolding Refuses
nxdomain_response-IsRefusal query {question} {end} parsed =
    let (later, inside) = Safe-found _ _ (parse_query_with_end-EndsIn query) parsed in
    header-split Refuses refuses query (omega arith) question end later inside parsed
