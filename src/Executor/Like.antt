-- ===== src/Executor/Like.antt =====
-- src/include/executor/like_matcher.h: LIKE by two cursors and one place to go back to.
pub mod Matches
pub mod Views
pub mod Fuel
pub mod Sound
pub mod Complete
pub mod Meaning
use chicken_db.Base.{
  ℕ, zero, suc, ◌+◌, ◌*◌, Bool, true, false, ◌&&◌, ◌||◌, Option, none, some, List, [], ◌∷◌, leb,
  if◌then◌else◌, length, get_elem?, drop,
}
use chicken_db.Base.Eq.{nat_eq, ◌==◌}

-- `std::tolower` of an unsigned char in the "C" locale.
abbrev pub to_lower : ℕ → ℕ
to_lower c = if leb 65 c && leb c 90 then c + 32 else c

abbrev pub char_eq : Bool → ℕ → ℕ → Bool
char_eq ci a b = if ci then to_lower a == to_lower b else a == b

-- '%' and '_'.
abbrev pub percent : ℕ
percent = 37

abbrev pub underscore : ℕ
underscore = 95

-- The locals of the loop; no star is `npos`.
pub record Cursor : Type 0 where
  pub ti : ℕ
  pub pi : ℕ
  pub star : Option ℕ
  pub mark : ℕ

pub data Step {ℓ} (S : Type ℓ) : Type ℓ where
  halts : Bool → Step S
  goes : S → Step S

-- The loop after the text: the rest of the pattern is all '%'.
abbrev pub only_percent : List ℕ → Bool
only_percent [] = true
only_percent (a ∷ p) = a == percent && only_percent p

-- `pi = star + 1; mark++; ti = mark;`, or failure where there is no star.
abbrev pub back : Cursor → Step Cursor
back s = elim s.star [
  | none ↦ halts false
  | some star ↦ goes (record s { ti = s.mark + 1; pi = star + 1; mark = s.mark + 1 })
]

-- One turn of the loop, or what follows it where the text is used up.
unfoldable pub step : Bool → List ℕ → List ℕ → Cursor → Step Cursor
step ci text pattern s = elim (get_elem? text s.ti) [
  | none ↦ halts (only_percent (drop s.pi pattern))
  | some c ↦ elim (get_elem? pattern s.pi) [
    | none ↦ back s
    | some a ↦
        if a == underscore || char_eq ci a c
        then goes (record s { ti = s.ti + 1; pi = s.pi + 1 })
        else if a == percent
        then goes (record s { pi = s.pi + 1; star = some (s.pi); mark = s.ti })
        else back s
  ]
]

-- The loop on fuel; `none` where it runs out.
unfoldable pub run {ℓ} : {S : Type ℓ} → (S → Step S) → ℕ → S → Option Bool
run f zero s = none
run f (suc n) s = elim (f s) [ halts b ↦ some b | goes s' ↦ run f n s' ]

abbrev pub start : Cursor
start = record { ti = 0; pi = 0; star = none; mark = 0 }

-- Every turn goes on in the pattern, or back with a later mark.
abbrev pub fuel : List ℕ → List ℕ → ℕ
fuel text pattern = length text * (length pattern + 1) + length pattern + 1

unfoldable pub like : List ℕ → List ℕ → Bool → Option Bool
unfolding run step
like text pattern ci = run (step ci text pattern) (fuel text pattern) start
