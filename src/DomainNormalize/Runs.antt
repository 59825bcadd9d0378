-- ===== src/DomainNormalize/Runs.antt =====
-- A name with a dot at its end, under a pass that changes nothing.
use holy_blocker.Shared.Texts.{split_dots}
use holy_blocker.DomainNormalize.{key, some, strip_dot, label_error, check_ascii, normalize}
use holy_blocker.Shared.{refl, ◌≡◌, codes}
use holy_blocker.DomainNormalize.Key.{normalize-key, IsKey}

normalize-key_example :
    (some (codes "a.org") ≡ some (codes "a.org"))
    × IsKey (codes "a.org")
    × (normalize (λ text. some text) (codes "a.org") ≡ key (codes "a.org"))
unfolding normalize check_ascii label_error strip_dot split_dots
normalize-key_example =
    normalize-key (λ text. some text) (λ text ascii e. refl) (codes "a.org.") refl
