-- ===== src/DomainBlocklist/Sweep/Stream/Fill.antt =====
-- A batch that is read from a file holds the next domains that are due.
use holy_blocker.DomainBlocklist.Sweep.Stream.{
  Reading, end_of_file, read_entry, Filled, filled, fill_batch,
}
use holy_blocker.DomainBlocklist.Sweep.{
  due_for_check, length, true, suc, drop, take, false, Bool, ℕ, MergedEntry, CacheBackend, Bytes,
  List, due_domains,
}
use holy_blocker.Shared.{
  zero, inr, text_eq_iff, member, inl, ◌<◌, ◌≤◌, Bool-cases, text_eq, arith, any, [], ◌≡◌, ◌∷◌,
  refl,
}

-- The file of some entries.
abbrev pub reading_of : List MergedEntry → Reading
reading_of [] = end_of_file
reading_of (e ∷ entries) = read_entry e (reading_of entries)

abbrev pub has_entry : Bytes → List MergedEntry → Bool
has_entry d = any (λ (e : MergedEntry). text_eq d e.domain)

abbrev pub DistinctDomains : List MergedEntry → Type 0
DistinctDomains [] = Unit
DistinctDomains (e ∷ entries) = (has_entry e.domain entries ≡ false) × DistinctDomains entries

module _ {C : Type 0} (backend : CacheBackend C) (cache : C) (now ttl_seconds : ℕ) where
  -- What a batch with some room reads off the file of some entries.
  pub record IsFilled (room : ℕ) (entries : List MergedEntry) (result : Filled) : Type 0 where
    pub rest : List MergedEntry
    pub eof : Bool
    pub result_is :
        result
        ≡ filled
            (take room (due_domains backend cache now ttl_seconds entries))
            eof
            (reading_of rest)
    pub rest_due :
        due_domains backend cache now ttl_seconds rest
        ≡ drop room (due_domains backend cache now ttl_seconds entries)
    pub at_end : eof ≡ true → rest ≡ []
    pub full :
        eof ≡ false → length (take room (due_domains backend cache now ttl_seconds entries)) ≡ room
    pub within : length rest ≤ length entries
    pub shorter : 0 < room → eof ≡ false → length rest < length entries
    pub from_entries : (d : Bytes) → has_entry d rest ≡ true → has_entry d entries ≡ true
    pub apart :
        (d : Bytes)
        → has_entry d rest ≡ true
        → member d (take room (due_domains backend cache now ttl_seconds entries)) ≡ false
    pub rest_distinct : DistinctDomains rest

  pub fill_batch-IsFilled :
      (room : ℕ) (entries : List MergedEntry)
      → DistinctDomains entries
      → IsFilled room entries (fill_batch backend cache now ttl_seconds room (reading_of entries))
  unfolding fill_batch due_domains
  fill_batch-IsFilled zero entries h = record {
    rest = entries;
    eof = false;
    result_is = ground arith;
    rest_due = ground arith;
    at_end = λ e. cc e;
    full = λ e. ground arith;
    within = omega arith;
    shorter = λ p e. absurd (omega (arith, p));
    from_entries = λ d k. k;
    apart = λ d k. ground arith;
    rest_distinct = h;
  }
  fill_batch-IsFilled (suc room) [] h = record {
    rest = [];
    eof = true;
    result_is = refl;
    rest_due = refl;
    at_end = λ e. refl;
    full = λ e. cc e;
    within = omega arith;
    shorter = λ p e. cc e;
    from_entries = λ d k. k;
    apart = λ d k. refl;
    rest_distinct = tt;
  }
  fill_batch-IsFilled (suc room) (e ∷ entries) h =
      elim (Bool-cases (due_for_check (backend.get e.domain cache) now ttl_seconds)) [
        | inl due ↦
            let r = fill_batch-IsFilled room entries h.1 in
            record {
              rest = r.rest;
              eof = r.eof;
              result_is = ground (arith, due, r.result_is);
              rest_due = ground (arith, due, r.rest_due);
              at_end = r.at_end;
              full = λ k. ground (arith, due, r.full k);
              within = omega (arith, r.within);
              shorter = λ p k. omega (arith, r.within);
              from_entries = λ d k. ground (arith, r.from_entries d k);
              apart = λ d k.
                  ground (arith, due, r.apart d k, r.from_entries d k, h.0, text_eq_iff d e.domain);
              rest_distinct = r.rest_distinct;
            }
        | inr fresh ↦
            let r = fill_batch-IsFilled (suc room) entries h.1 in
            record {
              rest = r.rest;
              eof = r.eof;
              result_is = ground (arith, fresh, r.result_is);
              rest_due = ground (arith, fresh, r.rest_due);
              at_end = r.at_end;
              full = λ k. ground (arith, fresh, r.full k);
              within = omega (arith, r.within);
              shorter = λ p k. omega (arith, r.within);
              from_entries = λ d k. ground (arith, r.from_entries d k);
              apart = λ d k. ground (arith, fresh, r.apart d k);
              rest_distinct = r.rest_distinct;
            }
      ]
