-- ===== src/Sessions/Profiles.antt =====
-- The stored profiles of the characters (config/settings.py): `find_player`, `get_player`, and the
-- four stores of a profile that the timers use. The entries of the stores have the fields of the
-- snapshots of core/timers.py, one for one.
use nparse_plus.Prelude.{
  ◌≡◌, refl, Bool, true, false, ◌&&◌, Option, some, List, [], ◌∷◌, find?, arith, if◌then◌else◌,
}
use nparse_plus.Text.{Text, text_eq, text_eq_iff, text_eq_refl}
use nparse_plus.Timers.Persistence.{
  YouSpellSnapshot, SelfCooldownSnapshot, SelfCounterSnapshot, RespawnTimerSnapshot,
}

pub record PlayerInfo : Type 0 where
  pub name : Text
  pub server : Text
  pub you_spells : List YouSpellSnapshot
  pub you_cooldowns : List SelfCooldownSnapshot
  pub you_counters : List SelfCounterSnapshot
  pub respawn_timers : List RespawnTimerSnapshot

abbrev pub new_player : Text → Text → PlayerInfo
new_player name server = record {
  name = name;
  server = server;
  you_spells = [];
  you_cooldowns = [];
  you_counters = [];
  respawn_timers = [];
}

abbrev pub is_player : Text → Text → PlayerInfo → Bool
is_player name server p = text_eq p.name name && text_eq p.server server

unfoldable pub find_player : Text → Text → List PlayerInfo → Option PlayerInfo
find_player name server players = find? (is_player name server) players

-- The entry, and the entries with it.
unfoldable pub get_player : Text → Text → List PlayerInfo → PlayerInfo × List PlayerInfo
get_player name server [] = (new_player name server, new_player name server ∷ [])
get_player name server (p ∷ players) =
    let rest = get_player name server players in
    if is_player name server p then (p, p ∷ players) else (rest.0, p ∷ rest.1)

-- An assignment to fields of the entry that `get_player` returns.
unfoldable pub write_player :
    Text → Text → (PlayerInfo → PlayerInfo) → List PlayerInfo → List PlayerInfo
write_player name server f [] = []
write_player name server f (p ∷ players) =
    if is_player name server p then f p ∷ players else p ∷ write_player name server f players

-- What `get_player` returns is what `find_player` finds from then on.
pub find-get_player :
    (name server : Text) (players : List PlayerInfo)
    → find_player name server (get_player name server players).1
      ≡ some (get_player name server players).0
unfolding find_player get_player
find-get_player name server [] = rw (text_eq_refl name, text_eq_refl server) refl
find-get_player name server (p ∷ players) = ground (arith, find-get_player name server players)

-- `get_player` finds an entry that is there.
pub get-find_player :
    (name server : Text) (p : PlayerInfo) (players : List PlayerInfo)
    → find_player name server players ≡ some p
    → get_player name server players ≡ (p, players)
unfolding find_player get_player
get-find_player name server p [] h = cc
get-find_player name server p (q ∷ players) h =
    ground (arith, get-find_player name server p players)

-- A function that keeps the key.
abbrev pub KeepsKey : (PlayerInfo → PlayerInfo) → Type 0
KeepsKey f = (p : PlayerInfo) → ((f p).name ≡ p.name) × ((f p).server ≡ p.server)

is_player-keeps :
    (name server : Text) (f : PlayerInfo → PlayerInfo) (p : PlayerInfo)
    → KeepsKey f
    → is_player name server (f p) ≡ is_player name server p
is_player-keeps name server f p k = rw ((k p).0, (k p).1) refl

pub find-write_player :
    (name server : Text) (f : PlayerInfo → PlayerInfo) (p : PlayerInfo) (players : List PlayerInfo)
    → KeepsKey f
    → find_player name server players ≡ some p
    → find_player name server (write_player name server f players) ≡ some (f p)
unfolding find_player write_player
find-write_player name server f p [] k h = cc
find-write_player name server f p (q ∷ players) k h =
    ground (arith, is_player-keeps name server f q k, find-write_player name server f p players k)

-- Another character, by its key.
abbrev pub Others : Text → Text → Text → Text → Type 0
Others name server name' server' = (text_eq name name' && text_eq server server') ≡ false

is_player-other :
    (name server name' server' : Text) (p : PlayerInfo)
    → Others name server name' server'
    → is_player name server p ≡ true
    → is_player name' server' p ≡ false
is_player-other name server name' server' p o h =
    let e : p.name ≡ name = (text_eq_iff p.name name).0 (ground arith) in
    let e' : p.server ≡ server = (text_eq_iff p.server server).0 (ground arith) in rw (e, e') o

pub find-get_player_other :
    (name server name' server' : Text) (players : List PlayerInfo)
    → Others name server name' server'
    → find_player name' server' (get_player name server players).1
      ≡ find_player name' server' players
unfolding find_player get_player
find-get_player_other name server name' server' [] o = ground arith
find-get_player_other name server name' server' (p ∷ players) o =
    ground (arith, find-get_player_other name server name' server' players o)

pub find-write_player_other :
    (name server name' server' : Text) (f : PlayerInfo → PlayerInfo) (players : List PlayerInfo)
    → KeepsKey f
    → Others name server name' server'
    → find_player name' server' (write_player name server f players)
      ≡ find_player name' server' players
unfolding find_player write_player
find-write_player_other name server name' server' f [] k o = refl
find-write_player_other name server name' server' f (p ∷ players) k o = ground (
  arith,
  is_player-keeps name' server' f p k,
  is_player-other name server name' server' p o,
  find-write_player_other name server name' server' f players k o,
)
