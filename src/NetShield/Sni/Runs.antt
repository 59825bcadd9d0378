-- ===== src/NetShield/Sni/Runs.antt =====
-- A ClientHello for example.com.
use holy_blocker.NetShield.Sni.ClientHello.{
  extract_sni-record_bytes, record_bytes, IsSendable, Hello,
}
use holy_blocker.NetShield.Utf8.{is_utf8}
use holy_blocker.NetShield.Sni.{panicked, found, extract_sni}
use holy_blocker.Shared.Buffer.{replicate}
use holy_blocker.Shared.{refl, ◌≢◌, ◌≡◌, codes, arith, [], ◌∷◌}
use holy_blocker.NetShield.Sni.Safety.{extract_sni-ne-panicked}

abbrev hello : Hello
hello = record {
  opening = replicate 34 3;
  session_id = [];
  cipher_suites = 0x13 ∷ 0x01 ∷ [];
  compression = 0 ∷ [];
  others = record { kind = 43; payload = 2 ∷ 3 ∷ 4 ∷ [] } ∷ [];
  name = codes "example.com";
  behind = [];
}

hello-IsSendable : IsSendable hello
unfolding is_utf8
hello-IsSendable = record {
  opening_size = refl;
  session_id_fits = omega arith;
  cipher_suites_fit = omega arith;
  compression_fits = omega arith;
  others_fit = ground arith;
  record_fits = omega arith;
  name_text = refl;
}

extract_sni-record_bytes_example :
    extract_sni (record_bytes 3 1 hello (codes "more")) ≡ found (codes "example.com")
extract_sni-record_bytes_example =
    extract_sni-record_bytes 3 1 hello (codes "more") hello-IsSendable

extract_sni-ne-panicked_example : extract_sni (0x16 ∷ 3 ∷ 1 ∷ 0 ∷ 1 ∷ 1 ∷ []) ≢ panicked
extract_sni-ne-panicked_example = extract_sni-ne-panicked (0x16 ∷ 3 ∷ 1 ∷ 0 ∷ 1 ∷ 1 ∷ [])
