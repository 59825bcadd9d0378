-- ===== src/Lib.antt =====
-- holy-blocker: the packet and DNS filter of packages/net-shield, the domain normalization of
-- packages/domain-normalize that it shares with the blocklist build, and of that build, in
-- packages/domain-blocklist, the merge of its sources, the liveness sweep and the gates.
--
-- A packet that is read from the TUN device goes one of two ways. On the DNS path
-- `DnsShield::inspect` (net-shield/src/dns_shield.rs) parses the IPv4 and UDP headers (udp.rs) and
-- the DNS query (dns.rs), normalizes the name (domain-normalize/src/normalize.rs), asks the rules in
-- their order of precedence (`resolve_action` of blocklist.rs: the allowlist, the explicit domain
-- rules of radix.rs, the keyword rules of keyword.rs, then the blocklist worker), and either answers
-- with a refusal that it frames back to the client or hands the query on. On the TCP path
-- `NetShield::process_packet` (lib.rs) parses the addresses and ports (tun.rs), extracts the server
-- name of a TLS ClientHello (sni.rs), asks the domain or the address rules of radix.rs, and makes one
-- call of the packet sink.
--
-- The build normalizes and unites the entries of every source (merge.rs), sweeps them for domains
-- that no longer exist (sweep.rs), which asks two resolvers for each domain that is due, keeps the
-- verdicts in a cache (cache_store.rs) and prunes what has been dead for the quarantine
-- (liveness/cache.rs), with a canary before the first batch and after each, and passes the gates
-- (gates.rs).
--
-- The files:
--   Shared and its children: bytes as lists of numbers, byte buffers with big-endian fields, text
--     split at dots, masks of bits, and `Outcome`, the result of a Rust function that returns an
--     Option and may panic: `found`, `missing` for None, and `panicked` for an index or a slice out
--     of range and for an addition that overflows the 64-bit `usize` where the code adds unchecked
--     lengths.
--   DomainNormalize: packages/domain-normalize/src/normalize.rs (`normalize`, `check_ascii` for its
--     checks behind the UTS #46 pass) and scope.rs (`classify_scope`).
--   NetShield.Utf8: `str::from_utf8` as a state machine over bytes, by the documented table of
--     well-formed UTF-8, and the lower case of ASCII.
--   NetShield.Sni: packages/net-shield/src/sni.rs (`extract_sni` with its parts `client_hello`,
--     `extension_loop`, `extension_round`, `server_name`).
--   NetShield.Udp: packages/net-shield/src/udp.rs (`parse_ipv4_udp`, `build_ipv4_udp`, `reply_to`,
--     `udp_checksum`, `ones_complement_checksum`).
--   NetShield.Dns: packages/net-shield/src/dns.rs (`parse_query_with_end`, `read_name`,
--     `nxdomain_response`).
--   NetShield.Radix and NetShield.Cidr: packages/net-shield/src/radix.rs, the trie of `DomainFilter`
--     and the sorted prefixes of `IpFilter`.
--   NetShield.Keyword: packages/net-shield/src/keyword.rs (`normalize_token`, `keyword_rules` for
--     `KeywordRules::new`, `keyword_matches` for `KeywordRules::matches`).
--   NetShield.Blocklist: packages/net-shield/src/blocklist.rs (`artifact_lookup`, `allow_contains`,
--     `resolve_action`) and `reverse_key` of packages/domain-blocklist/src/fst_build.rs.
--   NetShield.Lru: `LruCache` of packages/net-shield/src/blocklist.rs (`put`, `get`, `touch`), the
--     decisions that the worker remembers.
--   NetShield.Worker: `BlocklistLookup` and `Worker` of that file as a step relation: a caller goes
--     through the phases of `lookup`, the worker through those of `handle_lookup`, and a step is what
--     one of them does between two locks (`joined`, `opened` and `enqueued` for the entry in flight
--     and the request, `answer_waiters` for the end of `handle_lookup`). A wait may end at any time
--     that its channel is empty.
--   NetShield.DnsShield: packages/net-shield/src/dns_shield.rs (`inspect`, `resolve`,
--     `wrap_response`).
--   NetShield.Tun: packages/net-shield/src/tun.rs and `process_packet` of lib.rs.
--   DomainBlocklist.Types and DomainBlocklist.Gates: packages/domain-blocklist/src/types.rs and
--     gates.rs (`license_gate`, `size_gate`, `false_positive_hits`, `review_queue`), the gates that a
--     build of the blocklist has to pass.
--   DomainBlocklist.Merge: merge.rs of that crate (`judge` for the guards of the loop of `merge`,
--     `enter` for the entry of its BTreeMap, `tidy` for its last loop).
--   DomainBlocklist.Liveness: liveness/lookup.rs, corroboration.rs, cache.rs and canary.rs (`check`,
--     `check_corroborated`, `due_for_check`, `should_prune_with_hysteresis`, `nonce_dead_control`,
--     `canary_check`).
--   DomainBlocklist.Sweep: sweep.rs (`run_sweep_with_resolvers`, `process_batch`, `canary_pass_both`)
--     over any backend of the interface in DomainBlocklist.Backend, the trait `CacheBackend`, and
--     DomainBlocklist.Sweep.Stream for `run_sweep_streaming`.
--   DomainBlocklist.PersonalName: `flag_personal_name` of merge.rs.
--   DomainBlocklist.CacheStore: cache_store.rs, the backend on a redb database.
--   The modules named Runs apply the theorems to concrete packets, rules and names.
--
-- Bounds: a byte is a number below 256, a port one below 65536; sums of the checksum wrap at 32
-- bits, masks of addresses at 128 bits. The loop of `extract_sni` gets one round for each byte of
-- the extensions and one more, of which each takes four at least; the loop of `read_name` gets 257
-- rounds, since each adds a byte at least to a length that must stay below 256; the fold of the
-- carries gets three rounds, enough for 32 bits; the loop of the streaming sweep gets a round for
-- each entry of the file and one more, of which each but the last reads an entry at least. Running
-- out of rounds is `panicked` in the parsers, which the theorems on panics exclude, and `unfinished`
-- in the sweep.
--
-- Parameters: the UTS #46 conversion of the `idna` crate, the registrable domain and the private
-- suffixes of the `psl` crate, the map of the `fst` crate, the parser of `std::net::IpAddr`, the
-- blocklist worker as a function from a name to its answer, the sink of the packet loop, the redb
-- database and the bincode encoding. A DNS resolver of the sweep is what it answers to a domain at
-- each moment, so that it may change its mind between any two queries; the order in which the
-- checks of a batch complete is any that keeps the checks.
--
-- Not modelled: opening and verifying an artifact, the clock behind the worker's deadline, the
-- Wintun device and the asynchronous loops, the gates that compare floating-point fractions, the
-- pacing of the sweep, the fetchers, parsers and files of the crate domain-blocklist and its
-- command line, the crates text-policy, image-sandbox and mitm-proxy, the foreign function
-- interfaces and the applications.
pub mod Shared
pub mod DomainNormalize
pub mod DomainBlocklist
pub mod NetShield
