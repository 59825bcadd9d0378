-- ===== src/DomainBlocklist/Backend/Script.antt =====
-- What a client of the trait observes: two backends that keep its promise answer alike.
use holy_blocker.Shared.{◌∷◌}
use holy_blocker.DomainBlocklist.Backend.{
  arith, ◌≡◌, some, Option, CacheEntry, List, Bytes, CacheBackend, IsMap,
}
use holy_blocker.Shared.{sym, ◌∙◌, [], and_then-some, and_then}

pub data Operation : Type 0 where
  get_op : Bytes → Operation
  set_op : Bytes → CacheEntry → Operation
  flush_op : Operation

-- What the reads of a script return, if every flush succeeds.
unfoldable pub run_script :
    {C : Type 0} → CacheBackend C → List Operation → C → Option (List (Option CacheEntry))
run_script backend [] c = some []
run_script backend (get_op d ∷ script) c =
    and_then (run_script backend script c) (λ answers. some (backend.get d c ∷ answers))
run_script backend (set_op d e ∷ script) c = run_script backend script (backend.set d e c)
run_script backend (flush_op ∷ script) c =
    and_then (backend.flush c) (λ c'. run_script backend script c')

module _ {C D : Type 0} (one : CacheBackend C) (two : CacheBackend D) (ok : IsMap one)
    (ok' : IsMap two) where
  pub run_script-agree :
      (script : List Operation) (c : C) (d : D) (answers answers' : List (Option CacheEntry))
      → ((k : Bytes) → ok.view c k ≡ ok'.view d k)
      → run_script one script c ≡ some answers
      → run_script two script d ≡ some answers'
      → answers ≡ answers'
  unfolding run_script
  run_script-agree [] c d answers answers' h r s = cc (r, s)
  run_script-agree (get_op k ∷ script) c d answers answers' h r s =
      let (rest, first, last) = and_then-some (run_script one script c) _ r in
      let (rest', first', last') = and_then-some (run_script two script d) _ s in
      let same_rest = run_script-agree script c d rest rest' h first first' in
      ground (arith, last, last', same_rest, ok.view-get k c, ok'.view-get k d, h k)
  run_script-agree (set_op k e ∷ script) c d answers answers' h r s =
      run_script-agree script (one.set k e c) (two.set k e d) answers answers'
        (λ l. ground (arith, h l, ok.view-set k e c l, ok'.view-set k e d l)) r s
  run_script-agree (flush_op ∷ script) c d answers answers' h r s =
      let (c', flushed, rest) = and_then-some (one.flush c) _ r in
      let (d', flushed', rest') = and_then-some (two.flush d) _ s in
      run_script-agree script c' d' answers answers'
        (λ l. ok.view-flush c flushed l ∙ (h l ∙ sym (ok'.view-flush d flushed' l))) rest rest'
