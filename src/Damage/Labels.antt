-- ===== src/Damage/Labels.antt =====
-- What an entity keeps through a change of its level, owner or window (core/dps.py).
use nparse_plus.Prelude.{
  ℕ, ◌≤◌, ◌≡◌, refl, inl, Bool, true, false, Option, none, some, arith, All-mono, is_empty_list,
  if◌then◌else◌,
}
use nparse_plus.Text.{Text}
use nparse_plus.Damage.Entity.{
  new_entity, FightEntity, update_trailing, adopt, add_damage, with_hit, measure, unless_dead,
}
use nparse_plus.Damage.Carried.{WasSwept-same, Carries-WasSwept}
use nparse_plus.Damage.Measured.{IsMeasured, IsReady, update-IsUnmoved}

-- The level, the death and the owner do not matter.
pub relabel :
    (now : ℕ) (level death : Option ℕ) (pet : Bool) (e : FightEntity)
    → IsMeasured now e
    → IsMeasured now (record e { level = level; death_time = death; was_your_pet = pet })
relabel now level death pet e m = record {
  started = m.started;
  followed = m.followed;
  late = m.late;
  totalled = m.totalled;
  highest = m.highest;
  carries = record {
    spanned = m.carries.spanned;
    counted = m.carries.counted;
    swept = m.carries.swept;
  };
}

pub IsMeasured-mono :
    (before now : ℕ) (e : FightEntity) → before ≤ now → IsMeasured before e → IsMeasured now e
IsMeasured-mono before now e le m = record {
  started = m.started;
  followed = m.followed;
  late = All-mono (λ k. k.time ≤ before) (λ k. k.time ≤ now) (λ k p. omega arith) e.hits m.late;
  totalled = m.totalled;
  highest = m.highest;
  carries = m.carries;
}

-- A measured entity, over another window, is ready for a hit; so is a new one.
pub IsMeasured-IsReady :
    (now window : ℕ) (e : FightEntity)
    → IsMeasured now e
    → IsReady now (record e { trailing_window = window })
IsMeasured-IsReady now window e m = record {
  followed = m.followed;
  late = m.late;
  totalled = m.totalled;
  highest = m.highest;
  was_swept =
      WasSwept-same e.hits e (record e { trailing_window = window }) refl refl refl
        (Carries-WasSwept e.trailing_window e.hits e m.carries);
}

pub new_entity-IsReady :
    (now : ℕ) (attacker target : Text) (timestamp window : ℕ)
    → IsReady now (new_entity attacker target timestamp window)
new_entity-IsReady now attacker target timestamp window = record {
  followed = tt;
  late = tt;
  totalled = refl;
  highest = refl;
  was_swept = inl refl;
}

measure-death_time : (now : ℕ) (e : FightEntity) → (measure now e).death_time ≡ e.death_time
unfolding measure
measure-death_time now e = (update-IsUnmoved (record e { trailing_damage = _ })).death_time

unless_dead-death_time :
    (o : Option ℕ) (e e' : FightEntity)
    → e'.death_time ≡ e.death_time
    → (unless_dead o e e').death_time ≡ e.death_time
unless_dead-death_time none e e' h = h
unless_dead-death_time (some t) e e' h = refl

adopted_death_time :
    (now : ℕ) (b : Bool) (window : Option ℕ) (e : FightEntity)
    → (if b then adopt window e else measure now (adopt window e)).death_time ≡ e.death_time
adopted_death_time now true none e = refl
adopted_death_time now true (some w) e = refl
adopted_death_time now false none e = measure-death_time now e
adopted_death_time now false (some w) e = measure-death_time now (record e { trailing_window = w })

pub update_trailing-death_time :
    (now : ℕ) (window : Option ℕ) (e : FightEntity)
    → (update_trailing now window e).death_time ≡ e.death_time
unfolding update_trailing
update_trailing-death_time now window e =
    unless_dead-death_time e.death_time e _ (adopted_death_time now (is_empty_list e.hits) window e)

pub add_damage-death_time :
    (timestamp damage : ℕ) (e : FightEntity)
    → (add_damage timestamp damage e).death_time ≡ e.death_time
unfolding add_damage
add_damage-death_time timestamp damage e =
    update_trailing-death_time timestamp none (with_hit timestamp damage e)
