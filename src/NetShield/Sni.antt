-- ===== src/NetShield/Sni.antt =====
-- packages/net-shield/src/sni.rs: the server name of a TLS ClientHello record. An index or a slice
-- out of range is `panicked`, an early `return None` is `missing`.
pub mod Safety
pub mod ClientHello
mod Runs
use holy_blocker.Shared.{
  ℕ, zero, suc, ◌+◌, ◌*◌, ◌^◌, Bytes, length, ltb, leb, ◌==◌, if◌then◌else◌, Outcome, found,
  missing, panicked, ◌>>=◌, ◌>>◌, ensure, lift, bit_or, not, ◌||◌,
}
use holy_blocker.Shared.Buffer.{byte_at, u16_at, slice}
use holy_blocker.NetShield.Utf8.{from_utf8}

-- Three bytes, the highest first.
abbrev u24 : ℕ → ℕ → ℕ → ℕ
u24 b0 b1 b2 = bit_or (bit_or (b0 * 2 ^ 16) (b1 * 2 ^ 8)) b2

u24_to_usize : Bytes → Outcome ℕ
u24_to_usize b = do b0 ← byte_at b 0; b1 ← byte_at b 1; b2 ← byte_at b 2; found (u24 b0 b1 b2)

-- `u24_to_usize(&buf[pos..pos + 3])`
u24_at : Bytes → ℕ → Outcome ℕ
u24_at buf pos = do bytes ← slice buf pos (pos + 3); u24_to_usize bytes

-- `std::str::from_utf8(&buf[from..to]).ok()`
text_between : Bytes → ℕ → ℕ → Outcome Bytes
text_between buf from to = do text ← slice buf from to; lift (from_utf8 text)

-- The body of the server_name extension, whose payload starts at `pos`.
server_name : Bytes → ℕ → ℕ → ℕ → Outcome Bytes
server_name buf ext_end pos ext_len = do
  ensure (leb 5 ext_len)
  list_len ← u16_at buf pos
  ensure (leb 3 list_len)
  ensure (leb (pos + 2 + list_len) ext_end)
  name_type ← byte_at buf (pos + 2)
  ensure (name_type == 0)
  name_len ← u16_at buf (pos + 3)
  ensure (leb (pos + 5 + name_len) ext_end)
  text_between buf (pos + 5) (pos + 5 + name_len)

-- One round of the loop over the extensions, `next` being the loop from a later position on.
extension_round : Bytes → ℕ → ℕ → (ℕ → Outcome Bytes) → Outcome Bytes
extension_round buf ext_end pos next = do
  ext_type ← u16_at buf pos
  ext_len ← u16_at buf (pos + 2)
  ensure (leb (pos + 4 + ext_len) ext_end)
  if ext_type == 0 then server_name buf ext_end (pos + 4) ext_len else next (pos + 4 + ext_len)

-- Each round moves on by four bytes at least; a loop that runs out of rounds counts as panicked.
extension_loop : ℕ → Bytes → ℕ → ℕ → Outcome Bytes
extension_loop zero buf ext_end pos = panicked
extension_loop (suc rounds) buf ext_end pos =
    if leb (pos + 4) ext_end
    then extension_round buf ext_end pos (extension_loop rounds buf ext_end)
    else missing

-- The body of the ClientHello, from its legacy_version at `pos` on.
client_hello : Bytes → ℕ → ℕ → Outcome Bytes
client_hello buf hs_end pos = do
  ensure (leb (pos + 34) hs_end)
  ensure (leb (pos + 34 + 1) hs_end)
  sid_len ← byte_at buf (pos + 34)
  let after_sid = pos + 34 + (1 + sid_len)
  ensure (leb (after_sid + 2) hs_end)
  cs_len ← u16_at buf after_sid
  let after_cs = after_sid + (2 + cs_len)
  ensure (leb (after_cs + 1) hs_end)
  comp_len ← byte_at buf after_cs
  let after_comp = after_cs + (1 + comp_len)
  ensure (leb (after_comp + 2) hs_end)
  ext_total ← u16_at buf after_comp
  let exts = after_comp + 2
  ensure (leb (exts + ext_total) hs_end)
  extension_loop (suc ext_total) buf (exts + ext_total) exts

pub extract_sni : Bytes → Outcome Bytes
extract_sni buf = do
  ensure (leb 5 (length buf))
  content_type ← byte_at buf 0
  ensure (content_type == 0x16)
  record_len ← u16_at buf 3
  ensure (leb (5 + record_len) (length buf))
  let record_end = 5 + record_len
  ensure (leb (5 + 4) record_end)
  msg_type ← byte_at buf 5
  ensure (msg_type == 1)
  hs_len ← u24_at buf 6
  ensure (leb (9 + hs_len) record_end)
  client_hello buf (9 + hs_len) 9
