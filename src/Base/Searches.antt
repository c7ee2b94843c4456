-- ===== src/Base/Searches.antt =====
-- Searches through a list that count the entries they pass.
use mathlib.Core.Option
use mathlib.Core.Option.{Option, none, some}
use mathlib.Core.Path.{◌≡◌, refl}
use Prim.Native.Nat.{ℕ, suc}

-- The next index of a search that went past the head.
pub past_none : (o : Option ℕ) → Option.map suc o ≡ none → o ≡ none
past_none none h = refl
past_none (some j) h = cc

pub past_some :
    (o : Option ℕ) (i : ℕ) → Option.map suc o ≡ some i → (j : ℕ) × (i ≡ suc j) × (o ≡ some j)
past_some none i h = cc
past_some (some j) i h = (j, cc, refl)
