-- ===== src/Farm/Keys.antt =====
-- The keys of the historical rewards in the store: x/farm/types/key.go.
use Prim.Native.Char.{code}
use Prim.Native.String.{String, ◌++◌ as append_text}
use text.Mathlib.TextLemmas.{cons-append}
use okexchain.Base.{
  ℕ, zero, suc, ◌+◌, ◌/◌, ◌%◌, ◌≡◌, refl, ap, ltb, ◌==◌, Bool, true, false, ◌&&◌, List, [], ◌∷◌,
  ◌++◌, if◌then◌else◌, arith,
}

-- The bytes of a character in UTF-8, which is how Go keeps texts.
unfoldable pub char_bytes : ℕ → List ℕ
char_bytes c =
    if ltb c 128
    then c ∷ []
    else if ltb c 2048
    then (192 + c / 64) ∷ (128 + c % 64) ∷ []
    else if ltb c 65536
    then (224 + c / 4096) ∷ (128 + c / 64 % 64) ∷ (128 + c % 64) ∷ []
    else (240 + c / 262144) ∷ (128 + c / 4096 % 64) ∷ (128 + c / 64 % 64) ∷ (128 + c % 64) ∷ []

unfoldable pub name_bytes : String → List ℕ
name_bytes String.[] = []
name_bytes (String.◌∷◌ c s) = char_bytes (code c) ++ name_bytes s

-- binary.LittleEndian.PutUint64, in so many bytes
unfoldable pub little_endian : ℕ → ℕ → List ℕ
little_endian zero n = []
little_endian (suc bytes) n = n % 256 ∷ little_endian bytes (n / 256)

-- GetPoolHistoricalRewardsKey, without the store's own prefix
unfoldable pub get_pool_historical_rewards_key : String → ℕ → List ℕ
get_pool_historical_rewards_key pool period = name_bytes pool ++ little_endian 8 period

-- What an iterator over a prefix compares.
unfoldable pub is_prefix : List ℕ → List ℕ → Bool
is_prefix [] key = true
is_prefix (b ∷ bs) [] = false
is_prefix (b ∷ bs) (c ∷ key) = b == c && is_prefix bs key

is_prefix-self_append :
    (bs key rest : List ℕ) → is_prefix (bs ++ key) (bs ++ rest) ≡ is_prefix key rest
unfolding is_prefix
is_prefix-self_append [] key rest = refl
is_prefix-self_append (b ∷ bs) key rest = rw (same b) (is_prefix-self_append bs key rest)
  where
    same : (n : ℕ) → (n == n) ≡ true
    same n = ground arith

append_assoc : (a b c : List ℕ) → (a ++ b) ++ c ≡ a ++ (b ++ c)
append_assoc [] b c = refl
append_assoc (x ∷ a) b c = ap (◌∷◌ x) (append_assoc a b c)

-- The keys of a longer name begin with the shorter name.
pub is_prefix-longer :
    (name rest : String) (period : ℕ)
    → is_prefix (name_bytes name) (get_pool_historical_rewards_key (append_text name rest) period)
      ≡ true
unfolding get_pool_historical_rewards_key name_bytes
is_prefix-longer String.[] rest period = unfold is_prefix in refl
is_prefix-longer (String.◌∷◌ c s) rest period =
    rw
      (
        cons-append c s rest,
        append_assoc (char_bytes (code c)) (name_bytes (append_text s rest))
            (little_endian 8 period),
        is_prefix-self_append (char_bytes (code c)) (name_bytes s)
            (name_bytes (append_text s rest) ++ little_endian 8 period),
      )
      (is_prefix-longer s rest period)
