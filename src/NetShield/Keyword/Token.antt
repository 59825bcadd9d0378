-- ===== src/NetShield/Keyword/Token.antt =====
-- The tokens that the rules keep.
use holy_blocker.NetShield.Utf8.{lower}
use holy_blocker.NetShield.Keyword.{
  false, length, some, ◌∷◌, member, Bytes, ℕ, stoplist, is_ascii_alphanumeric, token_of,
  normalize_token,
}
use holy_blocker.Shared.{refl, [], arith, ◌⊎◌, ◌≡◌, All, ◌≤◌}

-- A lower-case letter or a digit.
abbrev pub IsTokenByte : ℕ → Type 0
IsTokenByte c = ((b'a' ≤ c) × (c ≤ b'z')) ⊎ ((b'0' ≤ c) × (c ≤ b'9'))

token_of-bytes : (raw : Bytes) → All IsTokenByte (token_of raw)
unfolding token_of is_ascii_alphanumeric lower
token_of-bytes [] = tt
token_of-bytes (c ∷ raw) = ground (arith, token_of-bytes raw)

token_of-token : (token : Bytes) → All IsTokenByte token → token_of token ≡ token
unfolding token_of is_ascii_alphanumeric lower
token_of-token [] h = refl
token_of-token (c ∷ token) h = ground (arith, token_of-token token h.1)

-- A usable token has five bytes or more, all of them lower-case letters or digits, it is not on the
-- stoplist, and normalizing it once more gives it back.
pub normalize_token-token :
    (raw : Bytes) {token : Bytes}
    → normalize_token raw ≡ some token
    → (5 ≤ length token)
      × All IsTokenByte token
      × (member token stoplist ≡ false)
      × (normalize_token token ≡ some token)
unfolding normalize_token
normalize_token-token raw {token} e =
    let same : token_of raw ≡ token = ground arith in
    let bytes = rw same at (token_of-bytes raw) in
    ground (arith, same, bytes, token_of-token token bytes)
