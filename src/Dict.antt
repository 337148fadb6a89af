-- ===== src/Dict.antt =====
-- Go's maps with string keys, `map[string]V` and `sync.Map`. The representation is private:
-- clients have `dict_laws`, and `values` for a loop over the whole map.
mod Entries
pub mod Order
use Entries.{
  Pairs, IsDistinct, value_at, others, held, value_at-others, others-IsDistinct, value_at-In,
  In-value_at,
}
use auth_imp.Base.{
  String, ◌≡◌, refl, Option, none, some, List, [], ◌∷◌, arith, ◌==◌, eq_refl, if◌then◌else◌, In,
}

pub record Dict {ℓ} (V : Type ℓ) : Type ℓ where
  pairs : Pairs V
  distinct : IsDistinct pairs

module _ {ℓ} {V : Type ℓ} where
  -- The values that a loop over the map visits, each once. Go leaves their order open: a caller
  -- applies the order of its run to them.
  unfoldable pub values : Dict V → List V
  unfolding held
  values m = held m.pairs

  -- `v, ok := m[key]`, `m.Load(key)`
  unfoldable pub get : Dict V → String → Option V
  unfolding value_at
  get m key = value_at m.pairs key

  -- The loop meets exactly the values that some key gives.
  pub In-values : (m : Dict V) (key : String) (v : V) → get m key ≡ some v → In v (values m)
  unfolding get values
  In-values m key v stored = value_at-In m.pairs key v stored

  pub In-values_inv : (m : Dict V) (v : V) → In v (values m) → (key : String) × (get m key ≡ some v)
  unfolding get values
  In-values_inv m v met = In-value_at m.pairs v m.distinct met

  -- `delete(m, key)`, `m.Delete(key)`
  unfoldable pub remove : Dict V → String → Dict V
  unfolding others
  remove m key = record {
    pairs = others m.pairs key;
    distinct = others-IsDistinct m.pairs key m.distinct;
  }

  pub value_at-others_self : (m : Dict V) (key : String) → value_at (others m.pairs key) key ≡ none
  value_at-others_self m key = rw (value_at-others m.pairs key key, eq_refl key)

  -- `m[key] = v`, `m.Store(key, v)`
  unfoldable pub put : Dict V → String → V → Dict V
  unfolding others
  put m key v = record {
    pairs = (key, v) ∷ others m.pairs key;
    distinct = (value_at-others_self m key, others-IsDistinct m.pairs key m.distinct);
  }

  pub get-put :
      (m : Dict V) (key : String) (v : V) (other : String)
      → get (put m key v) other ≡ (if key == other then some v else get m other)
  unfolding get put value_at
  get-put m key v other = ground (arith, value_at-others m.pairs key other)

  pub get-remove :
      (m : Dict V) (key other : String)
      → get (remove m key) other ≡ (if key == other then none else get m other)
  unfolding get remove
  get-remove m key other = value_at-others m.pairs key other

  -- `make(map[string]V)`
  unfoldable pub empty : Dict V
  empty = record { pairs = []; distinct = tt }

  pub get-empty : (key : String) → get empty key ≡ none
  unfolding get value_at empty
  get-empty key = refl

pub ruleset dict_laws = (get-put, get-remove, get-empty)
