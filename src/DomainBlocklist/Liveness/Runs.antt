-- ===== src/DomainBlocklist/Liveness/Runs.antt =====
-- Two resolvers that deny a name.
use holy_blocker.DomainBlocklist.Liveness.Lookup.{
  Answers, nx_domain, check_corroborated, dead, a, aaaa,
}
use holy_blocker.Shared.{◌↔◌, none, ◌≡◌, true}
use holy_blocker.DomainBlocklist.Liveness.Lookup.Dead.{check_corroborated-dead, is_plain_nx}

abbrev denied : Answers
denied _ = nx_domain true none

check_corroborated-dead_example : (check_corroborated denied denied ≡ dead) ↔ (
    (is_plain_nx (denied a) ≡ true)
    × (is_plain_nx (denied aaaa) ≡ true)
    × (is_plain_nx (denied a) ≡ true)
    × (is_plain_nx (denied aaaa) ≡ true))
check_corroborated-dead_example = check_corroborated-dead denied denied
