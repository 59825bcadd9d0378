-- ===== src/NetShield/Keyword/Rules.antt =====
-- `KeywordRules::new`, and what its rules are in terms of the raw tokens.
use holy_blocker.NetShield.Keyword.{
  ltb, none, not, Bool, length, leb, false, some, true, text_eq, List, ◌∷◌, ℕ, member,
  keyword_rules, dedup, dedup_from, sort_texts, insert_sorted, usable_tokens, text_leb,
  normalize_token, token_of, is_ascii_alphanumeric, stoplist,
}
use holy_blocker.NetShield.Utf8.{lower}
use holy_blocker.Shared.{
  ◌≢◌, ap, sym, text_eq_self, ◌+◌, inr, Option-cases, ◌⊎◌, ◌&&◌, refl, inl, text_eq_iff, ◌↔◌, ◌<◌,
  [], Bool-cases, ◌∙◌, ◌||◌, ◌≤◌, ◌++◌, if◌then◌else◌, ◌≡◌, Bytes, arith,
}
use mathlib.Core.Path.{subst}

-- The bytes that a byte of a raw token leaves: letters in lower case, digits, and nothing else.
abbrev pub spelling : ℕ → Bytes
spelling c =
    if leb b'A' c && leb c b'Z'
    then (c + 32) ∷ []
    else if (leb b'a' c && leb c b'z') || (leb b'0' c && leb c b'9')
    then c ∷ []
    else []

abbrev pub spelled : Bytes → Bytes
spelled [] = []
spelled (c ∷ raw) = spelling c ++ spelled raw

-- The strict order of texts by their bytes.
abbrev pub Precedes : Bytes → Bytes → Type 0
Precedes [] [] = ⊥
Precedes [] (y ∷ b) = Unit
Precedes (x ∷ a) [] = ⊥
Precedes (x ∷ a) (y ∷ b) = (x < y) ⊎ ((x ≡ y) × Precedes a b)

abbrev pub Ascending : List Bytes → Type 0
Ascending [] = Unit
Ascending (t ∷ []) = Unit
Ascending (t ∷ u ∷ us) = Precedes t u × Ascending (u ∷ us)

-- What a raw token makes a rule of.
abbrev pub IsRule : List Bytes → Bytes → Type 0
IsRule raws token =
    (5 ≤ length token)
    × (member token stoplist ≡ false)
    × ((raw : Bytes) × (member raw raws ≡ true) × (spelled raw ≡ token))

-- The rules of a list of raw tokens: in strictly ascending order, so that none occurs twice, and
-- exactly those that a raw token makes.
pub record IsRuleSet (raws rules : List Bytes) : Type 0 where
  pub ascending : Ascending rules
  pub exact : (token : Bytes) → (member token rules ≡ true) ↔ IsRule raws token

token_of-spelled : (raw : Bytes) → token_of raw ≡ spelled raw
unfolding token_of is_ascii_alphanumeric lower
token_of-spelled [] = refl
token_of-spelled (c ∷ raw) = ground (arith, token_of-spelled raw)

member-insert_sorted :
    (k t : Bytes) (us : List Bytes) → member k (insert_sorted t us) ≡ (text_eq k t || member k us)
unfolding insert_sorted
member-insert_sorted k t [] = refl
member-insert_sorted k t (u ∷ us) = ground (arith, member-insert_sorted k t us)

member-sort_texts : (k : Bytes) (ts : List Bytes) → member k (sort_texts ts) ≡ member k ts
unfolding sort_texts
member-sort_texts k [] = refl
member-sort_texts k (t ∷ ts) =
    member-insert_sorted k t (sort_texts ts) ∙ ground (arith, member-sort_texts k ts)

member-dedup_from :
    (k t : Bytes) (us : List Bytes) → member k (dedup_from t us) ≡ (text_eq k t || member k us)
unfolding dedup_from
member-dedup_from k t [] = refl
member-dedup_from k t (u ∷ us) =
    ground (arith, text_eq_iff t u, member-dedup_from k t us, member-dedup_from k u us)

member-dedup : (k : Bytes) (ts : List Bytes) → member k (dedup ts) ≡ member k ts
unfolding dedup
member-dedup k [] = refl
member-dedup k (t ∷ ts) = member-dedup_from k t ts ∙ refl

some_if :
    (b : Bool) (t k : Bytes) → ((if b then some t else none) ≡ some k) ↔ ((b ≡ true) × (t ≡ k))
some_if b t k = ground arith

usable_iff : (n : ℕ) (m : Bool) → ((leb 5 n && not m) ≡ true) ↔ ((5 ≤ n) × (m ≡ false))
usable_iff n m = ground arith

-- A raw token gives a rule where its spelling is long enough and not on the stoplist.
normalize_token-spelled :
    (raw token : Bytes)
    → (normalize_token raw ≡ some token)
      ↔ ((5 ≤ length token) × (member token stoplist ≡ false) × (spelled raw ≡ token))
unfolding normalize_token
normalize_token-spelled raw token =
    let t = token_of raw in
    let tests = usable_iff (length t) (member t stoplist) in
    let result = some_if (leb 5 (length t) && not (member t stoplist)) t token in
    (
      λ h.
          let (usable, e) = result.0 h in
          let (long, kept) = tests.0 usable in
          (
            subst (λ k. 5 ≤ length k) e long,
            subst (λ k. member k stoplist ≡ false) e kept,
            sym (token_of-spelled raw) ∙ e,
          ),
      λ (long, kept, e).
          let same : t ≡ token = token_of-spelled raw ∙ e in
          result.1 (
            tests.1 (
              subst (λ k. 5 ≤ length k) (sym same) long,
              subst (λ k. member k stoplist ≡ false) (sym same) kept,
            ),
            same,
          ),
    )

member-usable_tokens :
    (k : Bytes) (raws : List Bytes)
    → (member k (usable_tokens raws) ≡ true)
      ↔ ((raw : Bytes) × (member raw raws ≡ true) × (normalize_token raw ≡ some k))
unfolding usable_tokens
member-usable_tokens k [] = (λ h. cc h, λ (raw, h, e). cc h)
member-usable_tokens k (raw ∷ raws) = (
  λ h. elim (Option-cases (normalize_token raw)) [
    | inl e ↦
        let (r, listed, n) = (member-usable_tokens k raws).0 (ground (arith, h, e)) in
        (r, ground (arith, listed), n)
    | inr (t, e) ↦ elim (Bool-cases (text_eq k t)) [
      | inl own ↦
          (raw, ground (arith, text_eq_self raw), e ∙ ap some (sym ((text_eq_iff k t).0 own)))
      | inr other ↦
          let (r, listed, n) = (member-usable_tokens k raws).0 (ground (arith, h, e, other)) in
          (r, ground (arith, listed), n)
    ]
  ],
  λ (r, listed, n). elim (Bool-cases (text_eq r raw)) [
    | inl own ↦ ground (arith, text_eq_iff r raw, own, n, text_eq_self k)
    | inr other ↦
        let below = (member-usable_tokens k raws).1 (r, ground (arith, listed, other), n) in
        elim (Option-cases (normalize_token raw)) [
          | inl e ↦ ground (arith, e, below)
          | inr (t, e) ↦ ground (arith, e, below)
        ]
  ],
)

-- In order, with repetitions.
abbrev Sorted : List Bytes → Type 0
Sorted [] = Unit
Sorted (t ∷ []) = Unit
Sorted (t ∷ u ∷ us) = (text_leb t u ≡ true) × Sorted (u ∷ us)

text_leb-total : (t u : Bytes) → text_leb t u ≡ false → text_leb u t ≡ true
unfolding text_leb
text_leb-total [] u h = cc h
text_leb-total (x ∷ a) [] h = refl
text_leb-total (x ∷ a) (y ∷ b) h = ground (arith, h, text_leb-total a b)

text_leb-Precedes : (t u : Bytes) → text_leb t u ≡ true → t ≢ u → Precedes t u
unfolding text_leb
text_leb-Precedes [] [] h g = absurd (g refl)
text_leb-Precedes [] (y ∷ b) h g = tt
text_leb-Precedes (x ∷ a) [] h g = cc h
text_leb-Precedes (x ∷ a) (y ∷ b) h g = elim (Bool-cases (ltb x y)) [
  | inl below ↦ inl (ground (arith, below))
  | inr level ↦ inr (
    ground (arith, level, h),
    text_leb-Precedes a b (ground (arith, level, h))
        (λ e. g (ap (λ k. x ∷ k) e ∙ ap (λ k. k ∷ b) (ground (arith, level, h)))),
  )
]

insert_sorted-Sorted : (t : Bytes) (us : List Bytes) → Sorted us → Sorted (insert_sorted t us)
unfolding insert_sorted
insert_sorted-Sorted t [] h = tt
insert_sorted-Sorted t (u ∷ []) h = ground (arith, text_leb-total t u)
insert_sorted-Sorted t (u ∷ v ∷ us) h =
    ground (arith, text_leb-total t u, h, insert_sorted-Sorted t (v ∷ us) h.1)

sort_texts-Sorted : (ts : List Bytes) → Sorted (sort_texts ts)
unfolding sort_texts
sort_texts-Sorted [] = tt
sort_texts-Sorted (t ∷ ts) = insert_sorted-Sorted t (sort_texts ts) (sort_texts-Sorted ts)

dedup_from-head : (t : Bytes) (us : List Bytes) → (rest : List Bytes) × (dedup_from t us ≡ t ∷ rest)
unfolding dedup_from
dedup_from-head t [] = ([], refl)
dedup_from-head t (u ∷ us) = elim (Bool-cases (text_eq t u)) [
  | inl own ↦ let (rest, e) = dedup_from-head t us in (rest, rw own e)
  | inr other ↦ (dedup_from u us, rw other refl)
]

behind-Sorted : (t : Bytes) (us : List Bytes) → Sorted (t ∷ us) → Sorted us
behind-Sorted t [] h = tt
behind-Sorted t (u ∷ us) h = h.1

dedup_from-Ascending : (t : Bytes) (us : List Bytes) → Sorted (t ∷ us) → Ascending (dedup_from t us)
unfolding dedup_from
dedup_from-Ascending t [] h = tt
dedup_from-Ascending t (u ∷ us) h = elim (Bool-cases (text_eq t u)) [
  | inl own ↦
      rw own (
        dedup_from-Ascending t us
          (subst (λ v. Sorted (v ∷ us)) (sym ((text_eq_iff t u).0 own)) h.1))
  | inr other ↦
      let (rest, e) = dedup_from-head u us in
      let below = subst Ascending e (dedup_from-Ascending u us h.1) in
      rw (other, e)
        (text_leb-Precedes t u h.0 (λ e. ground (arith, other, text_eq_iff t u, e)), below)
]

dedup-Ascending : (ts : List Bytes) → Sorted ts → Ascending (dedup ts)
unfolding dedup
dedup-Ascending [] h = tt
dedup-Ascending (t ∷ ts) h = dedup_from-Ascending t ts h

-- The rules stand in strictly ascending order of their bytes, so that none occurs twice, and a token
-- is among them exactly when it has five bytes or more, is not on the stoplist, and is what the ASCII
-- letters and digits of a raw token spell in lower case.
pub keyword_rules-IsRuleSet : (raws : List Bytes) → IsRuleSet raws (keyword_rules raws)
unfolding keyword_rules
keyword_rules-IsRuleSet raws =
    let usable = usable_tokens raws in
    let same : (token : Bytes) → member token (dedup (sort_texts usable)) ≡ member token usable =
      λ token. member-dedup token (sort_texts usable) ∙ member-sort_texts token usable in
    record {
      ascending = dedup-Ascending (sort_texts usable) (sort_texts-Sorted usable);
      exact = λ token. (
        λ h.
            let (raw, listed, n) = (member-usable_tokens token raws).0 (rw (← same token) h) in
            let (long, kept, e) = (normalize_token-spelled raw token).0 n in
            (long, kept, (raw, listed, e)),
        λ (long, kept, (raw, listed, e)).
            same token
            ∙ (member-usable_tokens token raws).1
                (raw, listed, (normalize_token-spelled raw token).1 (long, kept, e)),
      );
    }
