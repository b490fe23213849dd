-- ===== src/Executor/Like/Matches.antt =====
-- What LIKE means, without the cursors of src/include/executor/like_matcher.h.
use chicken_db.Base.{ℕ, ◌≡◌, Bool, true, List, [], ◌∷◌}
use chicken_db.Executor.Like.{char_eq, percent, underscore}

-- A text matches a pattern: '%' stands for any text, '_' for any one character, and any other
-- character for itself.
pub data Matches (ci : Bool) : List ℕ → List ℕ → Type 0 where
  done : Matches ci [] []
  any : {c : ℕ} {t p : List ℕ} → Matches ci t p → Matches ci (c ∷ t) (underscore ∷ p)
  same :
      {a c : ℕ} {t p : List ℕ} → char_eq ci a c ≡ true → Matches ci t p → Matches ci (c ∷ t) (a ∷ p)
  skip : {t p : List ℕ} → Matches ci t p → Matches ci t (percent ∷ p)
  more : {c : ℕ} {t p : List ℕ} → Matches ci t (percent ∷ p) → Matches ci (c ∷ t) (percent ∷ p)
