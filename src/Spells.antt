-- ===== src/Spells.antt =====
-- The spell model (core/spells/models.py) and the enum of player classes (core/enums.py).
pub mod Book
pub mod Durations
use nparse_plus.Prelude.{ℕ, Bool, true, false, List, ℕ_discrete}
use nparse_plus.Text.{Text, Text-discrete}

pub data PlayerClass : Type 0 where
  warrior cleric paladin ranger shadow_knight druid monk bard rogue shaman : PlayerClass
  necromancer wizard magician enchanter other : PlayerClass

pub PlayerClass-discrete : Discrete PlayerClass
PlayerClass-discrete = hlevel

pub data SpellBenefitDetriment : Type 0 where
  beneficial detrimental : SpellBenefitDetriment

-- The enums `resist_type` and `spell_type` are kept as their numbers; nothing modelled reads them.
pub record Spell : Type 0 where
  pub spell_id : ℕ
  pub name : Text
  pub cast_on_you : Text
  pub cast_on_other : Text
  pub spell_fades : Text
  pub cast_time_ms : ℕ
  pub recast_time_ms : ℕ
  pub buff_duration_formula : ℕ
  pub pvp_buff_duration_formula : ℕ
  pub buff_duration_ticks : ℕ
  pub resist_type : ℕ
  pub spell_type : ℕ
  pub class_levels : List (PlayerClass × ℕ)
  pub spell_icon : ℕ
  pub descr_number : ℕ
  pub benefit_detriment : SpellBenefitDetriment

pub Spell-discrete : Discrete Spell
Spell-discrete = hlevel ℕ_discrete

detriment : SpellBenefitDetriment → Bool
detriment detrimental = true
detriment beneficial = false

-- The property `is_detrimental`.
unfoldable pub is_detrimental : Spell → Bool
unfolding detriment
is_detrimental s = detriment s.benefit_detriment
