-- ===== src/NetShield/Dns/Encode.antt =====
-- DNS queries as a stub resolver writes them (RFC 1035 section 4.1), and that they are read back.
use holy_blocker.Shared.Bits.{bit_and-field}
use holy_blocker.Shared.Buffer.{
  get_byte-drop, get_slice-drop, u16_at-u16_bytes, drop-skip, u16_bytes, IsU16,
}
use holy_blocker.NetShield.Utf8.{from_utf8, is_utf8, to_ascii_lowercase}
use holy_blocker.NetShield.Dns.{
  join_dots, suc, found, Outcome, bit_and, length, ◌∷◌, ℕ, Bytes, List, Reading, read_label,
  read_round, read_labels, read_name, read_question, parse_query_with_end,
}
use holy_blocker.Shared.{
  append_assoc, length-append, ◌*◌, ◌∙◌, append-nil, zero, refl, All, [], drop, arith, true, ◌^◌,
  ◌≡◌, ◌+◌, ◌++◌, ◌≤◌, ◌<◌,
}

-- Labels with their length bytes, and the root label.
abbrev pub name_bytes : List Bytes → Bytes → Bytes
name_bytes [] rest = 0 ∷ rest
name_bytes (label ∷ labels) rest = length label ∷ (label ++ name_bytes labels rest)

-- The bytes that the labels take, without the root label.
abbrev pub wire_size : List Bytes → ℕ
wire_size [] = 0
wire_size (label ∷ labels) = 1 + length label + wire_size labels

-- A label of 1 to 63 bytes that is text.
abbrev pub IsLabel : Bytes → Type 0
IsLabel label = (0 < length label) × (length label ≤ 63) × (is_utf8 label ≡ true)

-- A length of at most 63 has no label-kind bits.
no_kind_bits : (len : ℕ) → len ≤ 63 → bit_and len 0xc0 ≡ 0
no_kind_bits len h = omega (arith, bit_and-field 2 6 len)

module _ (msg : Bytes) (short : length msg < 2 ^ 63) where
  read_label_lem :
      (r : Reading) (label rest : Bytes) (next : Reading → Outcome (List Bytes × ℕ))
      → drop r.pos msg ≡ length label ∷ (label ++ rest)
      → IsLabel label
      → r.wire_len + 1 + length label ≤ 255
      → r.pos + 1 + length label ≤ length msg
      → (drop (r.pos + 1 + length label) msg ≡ rest)
        × (read_round msg r next
            ≡ next (record {
              pos = r.pos + 1 + length label;
              wire_len = r.wire_len + 1 + length label;
              labels = r.labels ++ (label ∷ []);
            }))
  unfolding read_round read_label from_utf8
  read_label_lem r label rest next here ok fits inside =
      let len = length label in
      let behind = drop-skip msg r.pos (r.pos + 1) (len ∷ []) _ here refl in
      (
        drop-skip msg (r.pos + 1) (r.pos + 1 + len) label rest behind refl,
        ground (
          arith,
          get_byte-drop msg r.pos here,
          no_kind_bits len,
          get_slice-drop msg (r.pos + 1) (r.pos + 1 + len) label rest behind refl inside,
        ),
      )

  root_round :
      (r : Reading) (next : Reading → Outcome (List Bytes × ℕ)) (rest : Bytes)
      → drop r.pos msg ≡ 0 ∷ rest
      → read_round msg r next ≡ found (r.labels, r.pos + 1)
  unfolding read_round
  root_round r next rest here = ground (arith, get_byte-drop msg r.pos here)

  read_labels_lem :
      (rounds : ℕ) (labels : List Bytes) (r : Reading) (end : ℕ) (rest : Bytes)
      → drop r.pos msg ≡ name_bytes labels rest
      → All IsLabel labels
      → r.wire_len + wire_size labels ≤ 255
      → r.pos + wire_size labels + 1 ≡ end
      → end ≤ length msg
      → 255 < r.wire_len + rounds
      → 0 < rounds
      → (drop end msg ≡ rest) × (read_labels rounds msg r ≡ found (r.labels ++ labels, end))
  unfolding read_labels
  read_labels_lem zero labels r end rest here ok fits e inside enough some_round =
      absurd (omega arith)
  read_labels_lem (suc rounds) [] r end rest here ok fits e inside enough some_round = (
    drop-skip msg r.pos end (0 ∷ []) rest here (omega arith),
    ground (arith, root_round r (read_labels rounds msg) rest here, append-nil r.labels),
  )
  read_labels_lem (suc rounds) (label ∷ labels) r end rest here ok fits e inside enough some_round =
      let (behind, step) =
        read_label_lem r label _ (read_labels rounds msg) here ok.0 (omega arith) (omega arith) in
      let (after, later) =
        read_labels_lem rounds labels _ end rest behind ok.1 (omega arith) (omega arith) inside
          (omega arith) (omega arith) in
      (after, step ∙ later ∙ rw append_assoc)

-- A query with one question: `rd` is the recursion-desired bit, `counts` the other three counts and
-- `rest` what stands behind the question.
pub record Query : Type 0 where
  pub id : ℕ
  pub rd : ℕ
  pub counts : Bytes
  pub labels : List Bytes
  pub qtype : ℕ
  pub qclass : ℕ
  pub rest : Bytes

abbrev pub query_bytes : Query → Bytes
query_bytes q =
    u16_bytes q.id
    ++ (u16_bytes (q.rd * 256)
        ++ (u16_bytes 1
            ++ (q.counts
                ++ name_bytes q.labels (u16_bytes q.qtype ++ (u16_bytes q.qclass ++ q.rest)))))

pub record IsStandard (q : Query) : Type 0 where
  pub id_fits : IsU16 q.id
  pub rd_bit : q.rd < 2
  pub counts_size : length q.counts ≡ 6
  pub labels_ok : All IsLabel q.labels
  pub name_fits : wire_size q.labels ≤ 255
  pub qtype_fits : IsU16 q.qtype
  pub qclass_fits : IsU16 q.qclass
  pub buffer_fits : length q.rest < 2 ^ 62

length-name_bytes :
    (labels : List Bytes) (rest : Bytes)
    → length (name_bytes labels rest) ≡ wire_size labels + 1 + length rest
length-name_bytes [] rest = omega arith
length-name_bytes (label ∷ labels) rest =
    omega (arith, length-append label (name_bytes labels rest), length-name_bytes labels rest)

-- Every standard query is read back, its name in lower case with dots between the labels, whatever
-- stands behind the question; the question ends where it was written to end. The labels may take
-- 255 bytes without the root label.
pub parse_query-query_bytes :
    (q : Query)
    → IsStandard q
    → parse_query_with_end (query_bytes q)
      ≡ found (
        record {
          id = q.id;
          name = to_ascii_lowercase (join_dots q.labels);
          qtype = q.qtype;
          qclass = q.qclass;
        },
        12 + wire_size q.labels + 5,
      )
unfolding parse_query_with_end read_name read_question
parse_query-query_bytes q ok =
    let msg = query_bytes q in
    let tail = u16_bytes q.qtype ++ (u16_bytes q.qclass ++ q.rest) in
    let size : length msg ≡ 12 + wire_size q.labels + 5 + length q.rest = omega (
      arith,
      length-append q.counts (name_bytes q.labels tail),
      length-name_bytes q.labels tail,
      ok.counts_size,
    ) in
    let small : length msg < 2 ^ 63 = omega (arith, size, ok.name_fits, ok.buffer_fits) in
    let at12 : drop 12 msg ≡ name_bytes q.labels tail =
      drop-skip msg 6 12 q.counts _ refl (omega (arith, ok.counts_size)) in
    let end = 12 + wire_size q.labels + 1 in
    let start : Reading = record { pos = 12; wire_len = 0; labels = [] } in
    let (behind, name) =
      read_labels_lem msg small 257 q.labels start end tail at12 ok.labels_ok
        (omega (arith, ok.name_fits)) refl (omega (arith, size)) (omega arith) (omega arith) in
    let at_class = drop-skip msg end (end + 2) (u16_bytes q.qtype) _ behind refl in
    ground (
      arith,
      size,
      small,
      u16_at-u16_bytes msg 0 q.id _ ok.id_fits refl,
      u16_at-u16_bytes msg 2 (q.rd * 256) _ (omega (arith, ok.rd_bit)) refl,
      u16_at-u16_bytes msg 4 1 _ (omega arith) refl,
      bit_and-field 1 15 (q.rd * 256),
      bit_and-field 4 11 (q.rd * 256),
      name,
      u16_at-u16_bytes msg end q.qtype _ ok.qtype_fits behind,
      u16_at-u16_bytes msg (end + 2) q.qclass _ ok.qclass_fits at_class,
    )
