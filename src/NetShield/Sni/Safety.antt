-- ===== src/NetShield/Sni/Safety.antt =====
-- `extract_sni` neither indexes out of range nor loops, whatever bytes it is given.
use holy_blocker.Shared.{
  Safe-ne-panicked, ◌≢◌, >>=-Safe, ℕ, zero, suc, ◌+◌, ◌≤◌, ◌<◌, ◌≡◌, Bool-cases, inl, inr, Bytes,
  length, take, drop, ◌-◌, leb, leb→le, Outcome, Safe, arith, Option, none, some, lift,
}
use holy_blocker.Shared.Buffer.{slice, byte_at-Safe, u16_at-Safe, slice-Safe}
use holy_blocker.NetShield.Utf8.{from_utf8}
use holy_blocker.NetShield.Sni.{
  panicked, u24_to_usize, u24_at, server_name, extension_round, extension_loop, text_between,
  client_hello, extract_sni,
}

abbrev Calm {ℓ} : {A : Type ℓ} → Outcome A → Type 0
Calm = Safe (λ _. Unit {0})

lift-Calm {ℓ} : {A : Type ℓ} (o : Option A) → Calm (lift o)
lift-Calm none = tt
lift-Calm (some a) = tt

u24_to_usize-Calm : (b : Bytes) → length b ≡ 3 → Calm (u24_to_usize b)
unfolding u24_to_usize
u24_to_usize-Calm b h = grind (arith, byte_at-Safe)

u24_at-Calm : (buf : Bytes) (pos : ℕ) → pos + 3 ≤ length buf → Calm (u24_at buf pos)
unfolding u24_at
u24_at-Calm buf pos h =
    >>=-Safe (λ s. length s ≡ pos + 3 - pos) _ (slice buf pos (pos + 3)) u24_to_usize
      (slice-Safe buf pos (pos + 3) (omega arith) h) (λ s e. u24_to_usize-Calm s (omega arith))

text_between-Calm :
    (buf : Bytes) (from to : ℕ) → from ≤ to → to ≤ length buf → Calm (text_between buf from to)
unfolding text_between slice
text_between-Calm buf from to h k =
    ground (arith, lift-Calm (from_utf8 (take (to - from) (drop from buf))))

server_name-Calm :
    (buf : Bytes) (ext_end pos ext_len : ℕ)
    → ext_end ≤ length buf
    → pos + ext_len ≤ ext_end
    → Calm (server_name buf ext_end pos ext_len)
unfolding server_name
server_name-Calm buf ext_end pos ext_len fits room =
    grind (arith, u16_at-Safe, byte_at-Safe, text_between-Calm)

extension_round-Calm :
    (buf : Bytes) (ext_end pos : ℕ) (next : ℕ → Outcome Bytes)
    → ext_end ≤ length buf
    → pos + 4 ≤ ext_end
    → ((later : ℕ) → pos + 4 ≤ later → later ≤ ext_end → Calm (next later))
    → Calm (extension_round buf ext_end pos next)
unfolding extension_round
extension_round-Calm buf ext_end pos next fits room k = grind (arith, u16_at-Safe, server_name-Calm)

extension_loop-Calm :
    (rounds : ℕ) (buf : Bytes) (ext_end pos : ℕ)
    → ext_end ≤ length buf
    → 0 < rounds
    → ext_end < pos + rounds
    → Calm (extension_loop rounds buf ext_end pos)
unfolding extension_loop
extension_loop-Calm zero buf ext_end pos fits some_round enough = absurd (omega arith)
extension_loop-Calm (suc rounds) buf ext_end pos fits some_round enough =
    elim (Bool-cases (leb (pos + 4) ext_end)) [
      | inr done ↦ rw done tt
      | inl more ↦
          let room = leb→le (pos + 4) ext_end more in
          rw more (
            extension_round-Calm buf ext_end pos _ fits room λ later h k.
              extension_loop-Calm rounds buf ext_end later fits (omega arith) (omega arith))
    ]

client_hello-Calm :
    (buf : Bytes) (hs_end pos : ℕ) → hs_end ≤ length buf → Calm (client_hello buf hs_end pos)
unfolding client_hello
client_hello-Calm buf hs_end pos fits =
    grind (arith, u16_at-Safe, byte_at-Safe, extension_loop-Calm)

extract_sni-Calm : (buf : Bytes) → Calm (extract_sni buf)
unfolding extract_sni
extract_sni-Calm buf = grind (arith, u16_at-Safe, byte_at-Safe, u24_at-Calm, client_hello-Calm)

-- No buffer makes `extract_sni` index or slice out of range, or run out of rounds in its loop.
pub extract_sni-ne-panicked : (buf : Bytes) → extract_sni buf ≢ panicked
extract_sni-ne-panicked buf =
    Safe-ne-panicked (λ _. Unit {0}) (extract_sni buf) (extract_sni-Calm buf)
