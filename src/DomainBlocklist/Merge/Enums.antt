-- ===== src/DomainBlocklist/Merge/Enums.antt =====
-- The two enums are told apart by their equality and by their rank.
use holy_blocker.DomainBlocklist.Types.{
  same_source, same_source→eq, same_category, adult, gambling, dating, steven_black, hagezi, ut1,
}
use holy_blocker.DomainBlocklist.Merge.{Category, SourceId, source_rank, category_rank}
use holy_blocker.Shared.{refl, ◌↔◌, arith, true, ◌≡◌}
use mathlib.Core.Path.{subst}

same_source_self : (s : SourceId) → same_source s s ≡ true
same_source_self steven_black = refl
same_source_self hagezi = refl
same_source_self ut1 = refl

pub same_source_iff : (s t : SourceId) → (same_source s t ≡ true) ↔ (s ≡ t)
same_source_iff s t =
    (same_source→eq s t, λ e. subst (λ x. same_source s x ≡ true) e (same_source_self s))

pub source_rank-inj : (s t : SourceId) → source_rank s ≡ source_rank t → s ≡ t
source_rank-inj steven_black steven_black h = refl
source_rank-inj hagezi hagezi h = refl
source_rank-inj ut1 ut1 h = refl
source_rank-inj steven_black hagezi h = absurd (omega (arith, h))
source_rank-inj steven_black ut1 h = absurd (omega (arith, h))
source_rank-inj hagezi steven_black h = absurd (omega (arith, h))
source_rank-inj hagezi ut1 h = absurd (omega (arith, h))
source_rank-inj ut1 steven_black h = absurd (omega (arith, h))
source_rank-inj ut1 hagezi h = absurd (omega (arith, h))

same_category_self : (c : Category) → same_category c c ≡ true
same_category_self adult = refl
same_category_self gambling = refl
same_category_self dating = refl

pub category_rank-inj : (c e : Category) → category_rank c ≡ category_rank e → c ≡ e
category_rank-inj adult adult h = refl
category_rank-inj gambling gambling h = refl
category_rank-inj dating dating h = refl
category_rank-inj adult gambling h = absurd (omega (arith, h))
category_rank-inj adult dating h = absurd (omega (arith, h))
category_rank-inj gambling adult h = absurd (omega (arith, h))
category_rank-inj gambling dating h = absurd (omega (arith, h))
category_rank-inj dating adult h = absurd (omega (arith, h))
category_rank-inj dating gambling h = absurd (omega (arith, h))

same_category→rank : (c e : Category) → same_category c e ≡ true → category_rank c ≡ category_rank e
same_category→rank adult adult h = refl
same_category→rank gambling gambling h = refl
same_category→rank dating dating h = refl
same_category→rank adult gambling h = cc
same_category→rank adult dating h = cc
same_category→rank gambling adult h = cc
same_category→rank gambling dating h = cc
same_category→rank dating adult h = cc
same_category→rank dating gambling h = cc

pub same_category_iff : (c e : Category) → (same_category c e ≡ true) ↔ (c ≡ e)
same_category_iff c e = (
  λ h. category_rank-inj c e (same_category→rank c e h),
  λ h. subst (λ x. same_category c x ≡ true) h (same_category_self c),
)
