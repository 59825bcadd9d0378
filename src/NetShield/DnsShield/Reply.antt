-- ===== src/NetShield/DnsShield/Reply.antt =====
-- The packets that go back to the client: a refusal, and an answer of a resolver.
use holy_blocker.Shared.{inr, inl, ◌≤◌, length, Safe-found, All, ◌≡◌, ℕ, Bytes, arith}
use holy_blocker.NetShield.Udp.{parse_ipv4_udp, reply_to, Ipv4UdpDatagram}
use holy_blocker.NetShield.Dns.{parse_query_with_end, DnsQuestion, parse_query}
use holy_blocker.NetShield.DnsShield.{wrap_response, blocked_reply, found}
use holy_blocker.NetShield.Dns.Refusal.{nxdomain_response-IsRefusal, IsRefusal}
use holy_blocker.NetShield.Udp.RoundTrip.{
  IsFramed, parse_ipv4_udp-IsBounded, parse_ipv4_udp-build_ipv4_udp, IsBounded,
}
use holy_blocker.Shared.Buffer.{IsByte}
use holy_blocker.NetShield.Dns.Query.{parse_query_with_end-EndsIn}

-- A refusal of the query in a packet that goes back to the client.
pub record IsReply (request : Ipv4UdpDatagram) (question_end : ℕ) (reply : Bytes) : Type 0 where
  pub refusal : Bytes
  pub framed :
      parse_ipv4_udp reply
      ≡ found (record {
        src_ip = request.dst_ip;
        dst_ip = request.src_ip;
        src_port = request.dst_port;
        dst_port = request.src_port;
        payload = refusal;
      })
  pub refuses : IsRefusal request.payload question_end refusal

-- What is written for a client that sent `packet` parses to the answer, addressed back to it.
reply_to-parse :
    (packet : Bytes) (d : Ipv4UdpDatagram) (answer : Bytes)
    → IsBounded packet d
    → length answer ≤ 65507
    → (reply : Bytes) × (reply_to d answer ≡ found reply)
      × (parse_ipv4_udp reply
          ≡ found (record {
            src_ip = d.dst_ip;
            dst_ip = d.src_ip;
            src_port = d.dst_port;
            dst_port = d.src_port;
            payload = answer;
          }))
unfolding reply_to IsFramed
reply_to-parse packet d answer ok small =
    elim (parse_ipv4_udp-build_ipv4_udp d.dst_ip d.src_ip d.dst_port d.src_port answer
      ok.dst_port_fits ok.src_port_fits) [
        | inl (long, _) ↦ absurd (omega (arith, long, small))
        | inr (reply, built, _, _, _, read) ↦ (reply, built, read)
      ]

pub parse_query_found :
    (msg : Bytes) {question : DnsQuestion} {end : ℕ}
    → parse_query_with_end msg ≡ found (question, end)
    → parse_query msg ≡ found question
unfolding parse_query
parse_query_found msg e = rw e

pub blocked_reply-IsReply :
    (packet : Bytes) (d : Ipv4UdpDatagram) {question : DnsQuestion} {end : ℕ}
    → IsBounded packet d
    → parse_query_with_end d.payload ≡ found (question, end)
    → (reply : Bytes) × (blocked_reply d ≡ found reply) × IsReply d end reply
unfolding blocked_reply
blocked_reply-IsReply packet d {question} {end} ok parsed =
    let (refusal, built, refuses) = nxdomain_response-IsRefusal d.payload parsed in
    let inside = Safe-found _ _ (parse_query_with_end-EndsIn d.payload) parsed in
    let small : length refusal ≤ 65507 = omega (arith, refuses.size, ok.payload_fits, inside.1) in
    let (reply, sent, read) = reply_to-parse packet d refusal ok small in
    (reply, rw (built, sent), record { refusal = refusal; framed = read; refuses = refuses })

-- An answer of a resolver that is longer than 65507 bytes gives no packet. Every other one is framed,
-- unchanged, in a packet of 28 more bytes, whose total-length field says so and which parses to a
-- datagram with the addresses and the ports of the client's packet swapped.
pub wrap_response-parse :
    (packet : Bytes) (d : Ipv4UdpDatagram) (answer : Bytes)
    → All IsByte packet
    → parse_ipv4_udp packet ≡ found d
    → IsFramed
        (record {
          src_ip = d.dst_ip;
          dst_ip = d.src_ip;
          src_port = d.dst_port;
          dst_port = d.src_port;
          payload = answer;
        })
        (wrap_response packet answer)
unfolding wrap_response reply_to
wrap_response-parse packet d answer bytes framed =
    let ok = Safe-found _ _ (parse_ipv4_udp-IsBounded packet bytes) framed in
    rw framed (
      parse_ipv4_udp-build_ipv4_udp d.dst_ip d.src_ip d.dst_port d.src_port answer ok.dst_port_fits
        ok.src_port_fits)
