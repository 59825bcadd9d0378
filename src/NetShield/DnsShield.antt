-- ===== src/NetShield/DnsShield.antt =====
-- packages/net-shield/src/dns_shield.rs: the decision on a packet that is read from the TUN device.
-- The crates `idna` and `psl` are the parameters `to_ascii`, `registrable` and
-- `under_private_suffix`. The blocklist worker answers from another thread, within a deadline: it is
-- a function from the name to its answer, where there is one.
pub mod Reply
pub mod Verdict
mod Runs
use holy_blocker.Shared.{
  panicked, ◌==◌, ensure, none, some, missing, Bool, ◌>>=◌, found, List, Option, Outcome, Bytes,
}
use holy_blocker.NetShield.Radix.{block, proxy, FilterAction, TrieNode}
use holy_blocker.NetShield.Dns.{port_dns, parse_query, nxdomain_response}
use holy_blocker.NetShield.Udp.{parse_ipv4_udp, reply_to, Ipv4UdpDatagram}
use holy_blocker.NetShield.Blocklist.{resolve_action}
use holy_blocker.DomainNormalize.{failed, key, normalize}

pub data DnsVerdict : Type 0 where
  ignore : DnsVerdict
  blocked forward : Bytes → Bytes → DnsVerdict

pub record DnsShield : Type 0 where
  pub explicit : TrieNode
  pub allowlist : List Bytes
  pub keywords : List Bytes
  pub blocklist : Option (Bytes → FilterAction)

-- `let Some(a) = m else { return DnsVerdict::Ignore; };`
abbrev or_ignore {ℓ} : {A : Type ℓ} → Outcome A → (A → Outcome DnsVerdict) → Outcome DnsVerdict
or_ignore (found a) f = f a
or_ignore missing f = found ignore
or_ignore panicked f = panicked

pub blocked_reply : Ipv4UdpDatagram → Outcome Bytes
blocked_reply datagram = do refusal ← nxdomain_response datagram.payload; reply_to datagram refusal

-- The verdict on a query for `name`, by the action of the rules.
verdict : Ipv4UdpDatagram → Bytes → FilterAction → Outcome DnsVerdict
verdict datagram name block =
    or_ignore (blocked_reply datagram) (λ reply. found (blocked name reply))
verdict datagram name _ = found (forward name datagram.payload)

-- The action where no rule on the calling thread decides.
ask_worker : Option (Bytes → FilterAction) → Bytes → FilterAction
ask_worker none normalized = proxy
ask_worker (some worker) normalized = worker normalized

pub wrap_response : Bytes → Bytes → Outcome Bytes
wrap_response request_packet response = do
  datagram ← parse_ipv4_udp request_packet
  reply_to datagram response

module _ (to_ascii registrable : Bytes → Option Bytes) (under_private_suffix : Bytes → Bool)
    (shield : DnsShield) where
  resolve_normalized : Bytes → FilterAction
  resolve_normalized normalized =
      elim (resolve_action registrable under_private_suffix normalized shield.allowlist
        shield.explicit shield.keywords none) [
          | some action ↦ action
          | none ↦ ask_worker shield.blocklist normalized
        ]

  pub resolve : Bytes → FilterAction
  resolve name = elim (normalize to_ascii name) [
    | key normalized ↦ resolve_normalized normalized
    | failed e ↦ proxy
  ]

  pub inspect : Bytes → Outcome DnsVerdict
  inspect packet = or_ignore (parse_ipv4_udp packet) (λ datagram.
      or_ignore (ensure (datagram.dst_port == port_dns)) (λ _.
        or_ignore (parse_query datagram.payload)
          (λ question. verdict datagram question.name (resolve question.name))))
