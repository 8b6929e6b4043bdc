-- ===== src/Node/DifficultyLog.antt =====
-- vdag-node/src/difficulty_log.rs: the target that was in force at each height.
mod Tests
use velodag_core.Prelude.{
  ℕ, ◌≡◌, refl, Option, none, some, List, [], ◌∷◌, arith, ◌==◌, if◌then◌else◌, Map, lookup, insert,
  lookup-insert,
}
use velodag_core.Types.{Hash}

pub record DifficultyLog : Type 0 where
  pub targets_by_height : Map Hash

-- `DifficultyLog::new()`
abbrev pub new_log : DifficultyLog
new_log = record { targets_by_height = [] }

-- `entry(height).or_insert(target)`
unfoldable pub record_target : ℕ → Hash → DifficultyLog → DifficultyLog
record_target height target l = elim (lookup height l.targets_by_height) [
  | none ↦ record l { targets_by_height = insert height target l.targets_by_height }
  | some _ ↦ l
]

unfoldable pub get : ℕ → DifficultyLog → Option Hash
get height l = lookup height l.targets_by_height

-- The recordings of a run, in order.
pub record_all : List (ℕ × Hash) → DifficultyLog → DifficultyLog
unfolding record_target
record_all [] l = l
record_all ((height, target) ∷ rest) l = record_all rest (record_target height target l)

-- The first recording of a height in the list.
pub first_recorded : ℕ → List (ℕ × Hash) → Option Hash
first_recorded h [] = none
first_recorded h ((height, target) ∷ rest) =
    if height == h then some target else first_recorded h rest

or_else : Option Hash → Option Hash → Option Hash
or_else none o = o
or_else (some t) o = some t

get-record_all_from :
    (h : ℕ) (entries : List (ℕ × Hash)) (l : DifficultyLog)
    → get h (record_all entries l) ≡ or_else (get h l) (first_recorded h entries)
unfolding get record_all first_recorded or_else
get-record_all_from h [] l = ground arith
get-record_all_from h ((height, target) ∷ rest) l = ground (
  arith,
  same,
  lookup-insert height h target l.targets_by_height,
  get-record_all_from h rest (record_target height target l),
)
  where
    same : height ≡ h → lookup height l.targets_by_height ≡ lookup h l.targets_by_height
    same e = λ i. lookup (e i) l.targets_by_height

-- After any recordings the log holds for each height the first target recorded for it, and nothing
-- for a height that was never recorded.
pub get-record_all :
    (h : ℕ) (entries : List (ℕ × Hash))
    → get h (record_all entries new_log) ≡ first_recorded h entries
unfolding get lookup or_else
get-record_all h entries = get-record_all_from h entries new_log
