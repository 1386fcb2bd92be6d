-- ===== src/World/Laws.antt =====
-- A look-up of tag information changes the cache of tags alone, and keeps it faithful.
use ksql.Prelude.{◌≡◌, refl, ◌∙◌, ap}
use mathlib.Core.Path.{subst}
use ksql.Prelude.Result.{Result, ok, err, panic, and_then}
use ksql.Prelude.Action.{Action, ◌>>=◌, bind-ok, bind-err, bind-panic}
use ksql.Reflect.{GoType}
use ksql.Structs.Tags.{get_tag_names}
use ksql.Structs.Cache.{IsFaithful, get_cached_tag_info-eq-get_tag_names}
use ksql.World.{World, get_tag_info}

-- `after` differs from `before` in its tags alone, which are faithful.
pub record OnlyTags (before after : World) : Type 0 where
  pub faithful : IsFaithful after.tags
  pub selects : after.selects ≡ before.selects
  pub log : after.log ≡ before.log

pub OnlyTags-refl : {w : World} → IsFaithful w.tags → OnlyTags w w
OnlyTags-refl f = record { faithful = f; selects = refl; log = refl }

pub OnlyTags-trans : {a b c : World} → OnlyTags a b → OnlyTags b c → OnlyTags a c
OnlyTags-trans p q = record {
  faithful = q.faithful;
  selects = q.selects ∙ p.selects;
  log = q.log ∙ p.log;
}

module _ (t : GoType) (w : World) (f : IsFaithful w.tags) where
  pub get_tag_info-eq-get_tag_names : (get_tag_info t w).0 ≡ get_tag_names t
  unfolding get_tag_info
  get_tag_info-eq-get_tag_names = (get_cached_tag_info-eq-get_tag_names t w.tags f).0

  pub get_tag_info-OnlyTags : OnlyTags w (get_tag_info t w).1
  unfolding get_tag_info
  get_tag_info-OnlyTags = record {
    faithful = (get_cached_tag_info-eq-get_tag_names t w.tags f).1;
    selects = refl;
    log = refl;
  }

-- A pure call leaves the world as it was, and a call that ends goes on from where it ended.
pub record Does {A : Type 0} (m : Action World A) (w : World) (r : Result A) : Type 0 where
  pub returns : (m w).0 ≡ r
  pub only_tags : OnlyTags w (m w).1

pub Does-get_tag_info :
    (t : GoType) (w : World) → IsFaithful w.tags → Does (get_tag_info t) w (get_tag_names t)
Does-get_tag_info t w f = record {
  returns = get_tag_info-eq-get_tag_names t w f;
  only_tags = get_tag_info-OnlyTags t w f;
}

pub Does-pure :
    {A : Type 0} (r : Result A) (w : World) → IsFaithful w.tags → Does (λ (s : World). (r, s)) w r
Does-pure r w f = record { returns = refl; only_tags = OnlyTags-refl f }

module _ {A B : Type 0} {m : Action World A} {k : A → Action World B} {w : World} where
  -- A bind does what its parts do, one after the other.
  pub Does-bind :
      {r : Result A} {f : A → Result B}
      → Does m w r
      → ((a : A) → r ≡ ok a → Does (k a) (m w).1 (f a))
      → Does (m >>= k) w (and_then r f)
  Does-bind {r = ok a} d next = record {
    returns = ap (λ (x : Result B × World). x.0) (bind-ok m k w d.returns) ∙ (next a refl).returns;
    only_tags = rw (bind-ok m k w d.returns) (OnlyTags-trans d.only_tags (next a refl).only_tags);
  }
  Does-bind {r = err e} d next = record {
    returns = ap (λ (x : Result B × World). x.0) (bind-err m k w d.returns);
    only_tags = rw (bind-err m k w d.returns) d.only_tags;
  }
  Does-bind {r = panic p} d next = record {
    returns = ap (λ (x : Result B × World). x.0) (bind-panic m k w d.returns);
    only_tags = rw (bind-panic m k w d.returns) d.only_tags;
  }

pub Does-eq :
    {A : Type 0} {m : Action World A} {w : World} {r s : Result A} → r ≡ s → Does m w r → Does m w s
Does-eq {m} {w} e d = subst (Does m w) e d
