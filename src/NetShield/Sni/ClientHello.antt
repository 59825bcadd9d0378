-- ===== src/NetShield/Sni/ClientHello.antt =====
-- The ClientHello records that a TLS client writes, as bytes: RFC 8446 section 4.1.2 and RFC 6066
-- section 3. `extract_sni` reads the server name back from every such record.
use holy_blocker.Shared.{
  ◌^◌, ◌*◌, length-append, zero, suc, ◌%◌, All, ◌/◌, ℕ, ◌+◌, ◌≤◌, ◌<◌, ◌≡◌, ◌≢◌, refl, List, [],
  ◌∷◌, ◌++◌, Bytes, length, drop, true, found, arith,
}
use holy_blocker.Shared.Buffer.{
  IsU16, u16_bytes, drop-skip, u16_at-u16_bytes, slice-drop, byte_at-drop,
}
use holy_blocker.Shared.Bits.{bit_or-shifted}
use holy_blocker.NetShield.Utf8.{from_utf8, is_utf8}
use holy_blocker.NetShield.Sni.{
  u24_to_usize, extract_sni, u24_at, u24, suc, Outcome, client_hello, extension_loop,
  extension_round, text_between, server_name,
}

-- An extension other than server_name.
pub record Extension : Type 0 where
  pub kind : ℕ
  pub payload : Bytes

abbrev IsOther : Extension → Type 0
IsOther e = (e.kind ≢ 0) × IsU16 e.kind × IsU16 (length e.payload)

abbrev pub extension_bytes : Extension → Bytes → Bytes
extension_bytes e rest = u16_bytes e.kind ++ (u16_bytes (length e.payload) ++ (e.payload ++ rest))

abbrev pub extensions_bytes : List Extension → Bytes → Bytes
extensions_bytes [] rest = rest
extensions_bytes (e ∷ es) rest = extension_bytes e (extensions_bytes es rest)

abbrev pub extensions_size : List Extension → ℕ
extensions_size [] = 0
extensions_size (e ∷ es) = 4 + length e.payload + extensions_size es

-- The server_name extension with one host name.
abbrev pub server_name_bytes : Bytes → Bytes → Bytes
server_name_bytes name rest =
    u16_bytes 0
    ++ (u16_bytes (length name + 5)
        ++ (u16_bytes (length name + 3) ++ (0 ∷ (u16_bytes (length name) ++ (name ++ rest)))))

text_between_lem :
    (buf : Bytes) (i j : ℕ) (name rest : Bytes)
    → drop i buf ≡ name ++ rest
    → i + length name ≡ j
    → j ≤ length buf
    → is_utf8 name ≡ true
    → text_between buf i j ≡ found name
unfolding text_between from_utf8
text_between_lem buf i j name rest here e fits h = rw (slice-drop buf i j name rest here e fits, h)

module _ (buf : Bytes) (ext_end : ℕ) (fits : ext_end ≤ length buf) where
  -- A round at the server_name extension returns the name.
  server_name_lem :
      (i : ℕ) (name rest : Bytes)
      → drop i buf
        ≡ u16_bytes (length name + 3) ++ (0 ∷ (u16_bytes (length name) ++ (name ++ rest)))
      → length name + 3 < 65536
      → is_utf8 name ≡ true
      → i + 5 + length name ≤ ext_end
      → server_name buf ext_end i (length name + 5) ≡ found name
  unfolding server_name
  server_name_lem i name rest here small valid room =
      let len = length name in
      let at2 = drop-skip buf i (i + 2) (u16_bytes (len + 3)) _ here (omega arith) in
      let at3 = drop-skip buf (i + 2) (i + 3) (0 ∷ []) _ at2 (omega arith) in
      let at5 = drop-skip buf (i + 3) (i + 5) (u16_bytes len) _ at3 (omega arith) in
      ground (
        arith,
        u16_at-u16_bytes buf i (len + 3) _ (omega arith) here,
        byte_at-drop buf (i + 2) at2,
        u16_at-u16_bytes buf (i + 3) len _ (omega arith) at3,
        text_between_lem buf (i + 5) (i + 5 + len) name rest at5 refl (omega arith) valid,
      )

  round_at_server_name :
      (next : ℕ → Outcome Bytes) (i : ℕ) (name rest : Bytes)
      → drop i buf ≡ server_name_bytes name rest
      → length name + 5 < 65536
      → is_utf8 name ≡ true
      → i + 9 + length name ≤ ext_end
      → extension_round buf ext_end i next ≡ found name
  unfolding extension_round
  round_at_server_name next i name rest here small valid room =
      let len = length name in
      let at2 = drop-skip buf i (i + 2) (u16_bytes 0) _ here (omega arith) in
      let at4 = drop-skip buf (i + 2) (i + 4) (u16_bytes (len + 5)) _ at2 (omega arith) in
      ground (
        arith,
        u16_at-u16_bytes buf i 0 _ (omega arith) here,
        u16_at-u16_bytes buf (i + 2) (len + 5) _ (omega arith) at2,
        server_name_lem (i + 4) name rest at4 (omega arith) valid (omega arith),
      )

  -- A round at another extension goes on behind it.
  round_at_other :
      (next : ℕ → Outcome Bytes) (i : ℕ) (e : Extension) (rest : Bytes)
      → drop i buf ≡ extension_bytes e rest
      → IsOther e
      → i + (4 + length e.payload) ≤ ext_end
      → (drop (i + 4 + length e.payload) buf ≡ rest)
        × (extension_round buf ext_end i next ≡ next (i + 4 + length e.payload))
  unfolding extension_round
  round_at_other next i e rest here other room =
      let len = length e.payload in
      let at2 = drop-skip buf i (i + 2) (u16_bytes e.kind) _ here (omega arith) in
      let at4 = drop-skip buf (i + 2) (i + 4) (u16_bytes len) _ at2 (omega arith) in
      (
        drop-skip buf (i + 4) (i + 4 + len) e.payload rest at4 refl,
        ground (
          arith,
          u16_at-u16_bytes buf i e.kind _ other.1 here,
          u16_at-u16_bytes buf (i + 2) len _ other.2 at2,
        ),
      )

  extension_loop_lem :
      (rounds i : ℕ) (es : List Extension) (name rest : Bytes)
      → drop i buf ≡ extensions_bytes es (server_name_bytes name rest)
      → All IsOther es
      → length name + 5 < 65536
      → is_utf8 name ≡ true
      → i + extensions_size es + 9 + length name ≤ ext_end
      → ext_end < i + rounds
      → extension_loop rounds buf ext_end i ≡ found name
  unfolding extension_loop
  extension_loop_lem zero i es name rest here others small valid room enough = absurd (omega arith)
  extension_loop_lem (suc rounds) i [] name rest here others small valid room enough = ground (
    arith,
    round_at_server_name (extension_loop rounds buf ext_end) i name rest here small valid
        (omega arith),
  )
  extension_loop_lem (suc rounds) i (e ∷ es) name rest here others small valid room enough =
      let (behind, step) =
        round_at_other (extension_loop rounds buf ext_end) i e _ here others.0 (omega arith) in
      let later =
        extension_loop_lem rounds _ es name rest behind others.1 small valid (omega arith)
          (omega arith) in
      ground (arith, step, later)

-- What a client puts into its ClientHello: `opening` is the version and the random bytes, `others`
-- the extensions before server_name, `behind` the bytes of those after it.
pub record Hello : Type 0 where
  pub opening : Bytes
  pub session_id : Bytes
  pub cipher_suites : Bytes
  pub compression : Bytes
  pub others : List Extension
  pub name : Bytes
  pub behind : Bytes

abbrev pub extensions_total : Hello → ℕ
extensions_total h = extensions_size h.others + (9 + length h.name + length h.behind)

abbrev pub body_size : Hello → ℕ
body_size h =
    34
    + (1 + length h.session_id)
    + (2 + length h.cipher_suites)
    + (1 + length h.compression)
    + (2 + extensions_total h)

abbrev pub body_bytes : Hello → Bytes → Bytes
body_bytes h rest =
    h.opening
    ++ (length h.session_id
        ∷ (h.session_id
            ++ (u16_bytes (length h.cipher_suites)
                ++ (h.cipher_suites
                    ++ (length h.compression
                        ∷ (h.compression
                            ++ (u16_bytes (extensions_total h)
                                ++ extensions_bytes h.others
                                    (server_name_bytes h.name (h.behind ++ rest)))))))))

-- The TLS record with its handshake header; `rest` is what stands behind it in the buffer.
abbrev pub record_bytes : ℕ → ℕ → Hello → Bytes → Bytes
record_bytes major minor h rest =
    0x16
    ∷ major
    ∷ minor
    ∷ (u16_bytes (4 + body_size h)
        ++ (1
            ∷ (body_size h / 65536)
            ∷ (body_size h / 256 % 256)
            ∷ (body_size h % 256)
            ∷ body_bytes h rest))

-- The lengths fit their fields, and the name is text.
pub record IsSendable (h : Hello) : Type 0 where
  pub opening_size : length h.opening ≡ 34
  pub session_id_fits : length h.session_id < 256
  pub cipher_suites_fit : length h.cipher_suites < 65536
  pub compression_fits : length h.compression < 256
  pub others_fit : All IsOther h.others
  pub record_fits : 4 + body_size h < 65536
  pub name_text : is_utf8 h.name ≡ true

u24-sum : (b0 b1 b2 : ℕ) → b1 < 256 → b2 < 256 → u24 b0 b1 b2 ≡ b0 * 65536 + b1 * 256 + b2
u24-sum b0 b1 b2 h k =
    let high : b0 * 65536 + b1 * 256 ≡ (b0 * 256 + b1) * 2 ^ 8 = omega arith in
    ground (arith, bit_or-shifted 16 b0 (b1 * 256), high, bit_or-shifted 8 (b0 * 256 + b1) b2)

u24_at_lem :
    (buf : Bytes) (i b0 b1 b2 : ℕ) (rest : Bytes)
    → drop i buf ≡ b0 ∷ b1 ∷ b2 ∷ rest
    → b1 < 256
    → b2 < 256
    → i + 3 ≤ length buf
    → u24_at buf i ≡ found (b0 * 65536 + b1 * 256 + b2)
unfolding u24_at u24_to_usize
u24_at_lem buf i b0 b1 b2 rest here h k fits =
    let three = b0 ∷ b1 ∷ b2 ∷ [] in
    ground (
      arith,
      slice-drop buf i (i + 3) three rest here (omega arith) fits,
      byte_at-drop three 0 refl,
      byte_at-drop three 1 refl,
      byte_at-drop three 2 refl,
      u24-sum b0 b1 b2 h k,
    )

client_hello_lem :
    (buf : Bytes) (hs_end i : ℕ) (h : Hello) (rest : Bytes)
    → hs_end ≤ length buf
    → drop i buf ≡ body_bytes h rest
    → IsSendable h
    → i + body_size h ≤ hs_end
    → client_hello buf hs_end i ≡ found h.name
unfolding client_hello
client_hello_lem buf hs_end i h rest fits here ok room =
    let sid = length h.session_id in
    let cs = length h.cipher_suites in
    let comp = length h.compression in
    let total = extensions_total h in
    let after_sid = i + 34 + (1 + sid) in
    let after_cs = after_sid + (2 + cs) in
    let after_comp = after_cs + (1 + comp) in
    let exts = after_comp + 2 in
    let at_sid = drop-skip buf i (i + 34) h.opening _ here (omega arith) in
    let at_cs = drop-skip buf (i + 34) after_sid (sid ∷ h.session_id) _ at_sid (omega arith) in
    let in_cs = drop-skip buf after_sid (after_sid + 2) (u16_bytes cs) _ at_cs (omega arith) in
    let at_comp = drop-skip buf (after_sid + 2) after_cs h.cipher_suites _ in_cs (omega arith) in
    let at_total =
      drop-skip buf after_cs after_comp (comp ∷ h.compression) _ at_comp (omega arith) in
    let at_exts = drop-skip buf after_comp exts (u16_bytes total) _ at_total (omega arith) in
    ground (
      arith,
      byte_at-drop buf (i + 34) at_sid,
      u16_at-u16_bytes buf after_sid cs _ (omega arith) at_cs,
      byte_at-drop buf after_cs at_comp,
      u16_at-u16_bytes buf after_comp total _ (omega arith) at_total,
      extension_loop_lem buf (exts + total) (omega arith) (suc total) exts h.others h.name _ at_exts
          ok.others_fit (omega arith) ok.name_text (omega arith) (omega arith),
    )

length-extensions_bytes :
    (es : List Extension) (rest : Bytes)
    → length (extensions_bytes es rest) ≡ extensions_size es + length rest
length-extensions_bytes [] rest = omega arith
length-extensions_bytes (e ∷ es) rest =
    omega
      (arith, length-append e.payload (extensions_bytes es rest), length-extensions_bytes es rest)

length-body_bytes :
    (h : Hello) (rest : Bytes)
    → length h.opening ≡ 34
    → length (body_bytes h rest) ≡ body_size h + length rest
length-body_bytes h rest e = omega (arith, length-append {0} {A = ℕ}, length-extensions_bytes)

-- `extract_sni` returns the host name of every sendable ClientHello, whatever its versions, random
-- bytes, session id, cipher suites and other extensions are, and whatever follows the record.
pub extract_sni-record_bytes :
    (major minor : ℕ) (h : Hello) (rest : Bytes)
    → IsSendable h
    → extract_sni (record_bytes major minor h rest) ≡ found h.name
unfolding extract_sni
extract_sni-record_bytes major minor h rest ok =
    let buf = record_bytes major minor h rest in
    let len = length-body_bytes h rest ok.opening_size in
    let size = body_size h in
    ground (
      arith,
      byte_at-drop buf 0 refl,
      u16_at-u16_bytes buf 3 (4 + size) _ ok.record_fits refl,
      byte_at-drop buf 5 refl,
      len,
      u24_at_lem buf 6 (size / 65536) (size / 256 % 256) (size % 256) _ refl,
      client_hello_lem buf (9 + size) 9 h rest (omega (arith, len)) refl ok (omega arith),
    )
