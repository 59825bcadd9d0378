-- ===== src/NetShield/Dns/Runs.antt =====
-- A query for Www.Example.com, read and refused.
use holy_blocker.Shared.Buffer.{u16_at, get_byte, get_slice}
use holy_blocker.Shared.Texts.{join_dots}
use holy_blocker.NetShield.Utf8.{from_utf8, to_ascii_lowercase, lower, is_utf8}
use holy_blocker.Shared.{refl, ◌≡◌, arith, codes, ◌∷◌, Safe, Bytes}
use holy_blocker.NetShield.Dns.Encode.{parse_query-query_bytes, query_bytes, IsStandard, Query}
use holy_blocker.NetShield.Dns.{
  read_question, read_label, read_round, found, read_labels, [], nxdomain_response, read_name,
  parse_query_with_end,
}
use holy_blocker.NetShield.Dns.Query.{parse_query_with_end-EndsIn, EndsIn}
use holy_blocker.NetShield.Dns.Refusal.{nxdomain_response-IsRefusal, IsRefusal}

abbrev pub counts_rest : Bytes
counts_rest = 0 ∷ 0 ∷ 0 ∷ 0 ∷ 0 ∷ 0 ∷ []

abbrev question : Query
question = record {
  id = 7;
  rd = 1;
  counts = counts_rest;
  labels = codes "Www" ∷ codes "Example" ∷ codes "com" ∷ [];
  qtype = 1;
  qclass = 1;
  rest = [];
}

question-IsStandard : IsStandard question
unfolding is_utf8
question-IsStandard = record {
  id_fits = omega arith;
  rd_bit = omega arith;
  counts_size = refl;
  labels_ok = ground arith;
  name_fits = omega arith;
  qtype_fits = omega arith;
  qclass_fits = omega arith;
  buffer_fits = omega arith;
}

parse_query-query_bytes_example :
    parse_query_with_end (query_bytes question)
    ≡ found (
      record { id = 7; name = to_ascii_lowercase (codes "Www.Example.com"); qtype = 1; qclass = 1 },
      33,
    )
unfolding join_dots
parse_query-query_bytes_example = parse_query-query_bytes question question-IsStandard

question_parsed :
    parse_query_with_end (query_bytes question)
    ≡ found (record { id = 7; name = codes "www.example.com"; qtype = 1; qclass = 1 }, 33)
unfolding parse_query_with_end read_name read_labels read_round read_label read_question from_utf8
    to_ascii_lowercase lower is_utf8 join_dots u16_at get_byte get_slice
question_parsed = refl

nxdomain_response-IsRefusal_example :
    (response : Bytes) × (nxdomain_response (query_bytes question) ≡ found response)
    × IsRefusal (query_bytes question) 33 response
nxdomain_response-IsRefusal_example =
    nxdomain_response-IsRefusal (query_bytes question) question_parsed

parse_query_with_end-EndsIn_example :
    Safe (EndsIn 12 33) (parse_query_with_end (query_bytes question))
parse_query_with_end-EndsIn_example = parse_query_with_end-EndsIn (query_bytes question)
