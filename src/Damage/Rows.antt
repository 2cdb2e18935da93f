-- ===== src/Damage/Rows.antt =====
-- The rows of the window and the text of a parse (core/dps.py): `snapshot`, `format_fight_details` and
-- `fight_parse`.
use nparse_plus.Prelude.{ℕ, Bool, ◌&&◌, Option, List, [], ◌∷◌, ◌++◌, keep, if◌then◌else◌, leb, ltb}
use nparse_plus.Text.{Text, codes, casefold, text_eq}
use nparse_plus.Text.Decimal.{decimal}
use nparse_plus.Logs.Integers.{Number}
use nparse_plus.Damage.Floats.{quotient, times, truncated}
use nparse_plus.Damage.Entity.{FightEntity, total_seconds, total_dps, trailing_dps}
use nparse_plus.Damage.Fight.{Fight, Entities, is_dead, target_total_damage}
use nparse_plus.Damage.Tracker.{FightTracker, you, is_your_pet}

pub record FightRow : Type 0 where
  pub target_name : Text
  pub attacker_name : Text
  pub level : Option ℕ
  pub is_dead : Bool
  pub is_your_damage : Bool
  pub is_your_pet : Bool
  pub total_damage : ℕ
  pub target_total_damage : ℕ
  pub percent_of_total : ℕ
  pub trailing_damage : ℕ
  pub dps : ℕ
  pub total_dps : ℕ
  pub highest_hit : ℕ
  pub total_seconds : Number

-- `sorted(xs, key=…, reverse=True)`: the largest first, equal ones in their order.
module _ {ℓ} {A : Type ℓ} (key : A → ℕ) where
  unfoldable pub insert_descending : A → List A → List A
  insert_descending x [] = x ∷ []
  insert_descending x (y ∷ ys) =
      if leb (key y) (key x) then x ∷ y ∷ ys else y ∷ insert_descending x ys

  unfoldable pub descending : List A → List A
  unfolding insert_descending
  descending [] = []
  descending (x ∷ xs) = insert_descending x (descending xs)

abbrev pub values : Entities → List FightEntity
values [] = []
values ((k, e) ∷ es) = e ∷ values es

-- `int(total / target_total * 100.0)`, and 0 of nothing
unfoldable pub percent_of : ℕ → ℕ → ℕ
unfolding quotient times truncated
percent_of part whole =
    if ltb 0 whole && ltb 0 part then truncated (times (quotient part whole) 100) else 0

unfoldable pub row_of : ℕ → Text → Fight → FightEntity → FightRow
unfolding percent_of is_dead is_your_pet target_total_damage total_dps total_seconds trailing_dps
row_of now pet_name f e = record {
  target_name = f.target_name;
  attacker_name = e.attacker_name;
  level = e.level;
  is_dead = is_dead f;
  is_your_damage = text_eq e.attacker_name you;
  is_your_pet = is_your_pet pet_name e.attacker_name f.target_name;
  total_damage = e.total_damage;
  target_total_damage = target_total_damage f.entities;
  percent_of_total = percent_of e.total_damage (target_total_damage f.entities);
  trailing_damage = e.trailing_damage;
  dps = trailing_dps e;
  total_dps = total_dps now e;
  highest_hit = e.highest_hit;
  total_seconds = total_seconds now e;
}

unfoldable pub rows_of : ℕ → Text → Fight → List FightEntity → List FightRow
unfolding row_of
rows_of now pet_name f [] = []
rows_of now pet_name f (e ∷ es) = row_of now pet_name f e ∷ rows_of now pet_name f es

unfoldable pub snapshot_of : ℕ → Text → List Fight → List FightRow
unfolding rows_of descending
snapshot_of now pet_name [] = []
snapshot_of now pet_name (f ∷ fs) =
    rows_of now pet_name f (descending (λ (e : FightEntity). e.total_damage) (values f.entities))
    ++ snapshot_of now pet_name fs

unfoldable pub snapshot : ℕ → FightTracker → List FightRow
unfolding snapshot_of
snapshot now t = snapshot_of now t.pet_name t.fights

abbrev detail : FightRow → Text
detail row =
    row.attacker_name
    ++ codes " "
    ++ decimal row.percent_of_total
    ++ codes "% DPS:"
    ++ decimal row.total_dps
    ++ codes " DMG:"
    ++ decimal row.total_damage

-- `" / ".join(…)`
unfoldable pub join_details : List FightRow → Text
unfolding decimal
join_details [] = []
join_details (row ∷ []) = detail row
join_details (row ∷ next ∷ rows) = detail row ++ codes " / " ++ join_details (next ∷ rows)

unfoldable pub format_fight_details : List FightRow → Text
unfolding join_details descending decimal
format_fight_details [] = []
format_fight_details (first ∷ rows) =
    codes "Fight Details: "
    ++ first.target_name
    ++ codes " Dmg: "
    ++ decimal first.target_total_damage
    ++ codes "    "
    ++ join_details (descending (λ (row : FightRow). row.total_damage) (first ∷ rows))

unfoldable pub fight_parse : List FightRow → Text → Text
unfolding format_fight_details
fight_parse rows target_name =
    format_fight_details
      (keep (λ (row : FightRow). text_eq (casefold row.target_name) (casefold target_name)) rows)
