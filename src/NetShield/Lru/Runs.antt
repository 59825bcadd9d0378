-- ===== src/NetShield/Lru/Runs.antt =====
-- A full cache of two decisions, the one for a.org used longest ago.
use holy_blocker.NetShield.Lru.Keys.{Distinct, keys}
use holy_blocker.NetShield.Lru.Evict.{put-others, is_oldest}
use holy_blocker.NetShield.Radix.{block}
use holy_blocker.Shared.{◌≡◌, ◌∷◌, text_eq, none, some, refl, arith, codes, []}
use holy_blocker.NetShield.Lru.{map_get, put, contains_key, get, LruCache}
use holy_blocker.NetShield.Lru.Recent.{get-put, put-IsLru, get-IsLru, IsLru}

abbrev two : LruCache
two = record {
  cap = 2;
  map = (codes "b.org", none) ∷ (codes "a.org", some block) ∷ [];
  order = codes "a.org" ∷ codes "b.org" ∷ [];
}

two-IsLru : IsLru two
unfolding Distinct keys text_eq
two-IsLru = record {
  some_room = omega arith;
  within = omega arith;
  same_size = refl;
  order_distinct = (refl, (refl, tt));
  map_distinct = (refl, (refl, tt));
  same_keys = λ k. ground arith;
}

put-IsLru_example : IsLru (put (codes "c.org") none two)
put-IsLru_example = put-IsLru (codes "c.org") none two two-IsLru

get-IsLru_example : IsLru (get (codes "a.org") two).1
get-IsLru_example = get-IsLru (codes "a.org") two two-IsLru

get-put_example : (get (codes "c.org") (put (codes "c.org") (some block) two)).0 ≡ some (some block)
get-put_example = get-put (codes "c.org") (some block) two

put-others_example : map_get (codes "a.org") (put (codes "c.org") none two).map ≡ none
unfolding is_oldest contains_key map_get text_eq
put-others_example = put-others (codes "a.org") (codes "c.org") none two two-IsLru refl
