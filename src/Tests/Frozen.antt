-- ===== src/Tests/Frozen.antt =====
-- Two pools, the name of one the beginning of the other's; the first is destroyed.
use Prim.Native.String.{String}
use text.Mathlib.Text.{◌==◌ as string_eq}
use text.Mathlib.TextEquality.{eq_iff}
use okexchain.Base.{
  update, ◌≡◌, ◌≢◌, ap, sym, ◌∙◌, refl, pos, ◌+ℤ◌, ◌-ℤ◌, Option, none, some, ok, inl, inr,
  Bool-cases,
}
use okexchain.Sdk.{coin}
use okexchain.Farm.Types.{FarmPool, MsgCreatePool, MsgDestroyPool, MsgLock, new_dec}
use okexchain.Farm.Yield.{calculate_amount_yielded_between, yield_tokens, yield_token}
use okexchain.Farm.Handler.{
  handle_msg_create_pool, handle_msg_destroy_pool, handle_msg_unlock, finished, all_exhausted,
}
use okexchain.Farm.Handler.Frozen.{handle_msg_destroy_pool-freezes}
use okexchain.Tests.Setting.{coin_math, dec_math, signed}
use okexchain.Tests.Farm.{coin_sets, module_bank, genesis, Store, or_else}

abbrev creation : String → MsgCreatePool
creation name = record {
  owner = "ann";
  pool_name = name;
  min_lock_amount = coin "usdk" (pos 10);
  yielded_symbol = "okb";
}

abbrev one_pool : Store
one_pool =
    or_else genesis (handle_msg_create_pool coin_sets module_bank coin_math (creation "p") genesis)

abbrev two_pools : Store
two_pools =
    or_else genesis
      (handle_msg_create_pool coin_sets module_bank coin_math (creation "pq") one_pool)

abbrev destruction : MsgDestroyPool
destruction = record { owner = "ann"; pool_name = "p" }

abbrev destroyed : Store
destroyed =
    or_else genesis (handle_msg_destroy_pool coin_sets module_bank coin_math destruction two_pools)

destroyed_ok :
    handle_msg_destroy_pool coin_sets module_bank coin_math destruction two_pools ≡ ok destroyed
unfolding genesis coin_sets module_bank coin_math dec_math signed handle_msg_create_pool
    handle_msg_destroy_pool calculate_amount_yielded_between yield_tokens yield_token new_dec
    finished all_exhausted ◌+ℤ◌ ◌-ℤ◌
destroyed_ok = refl

abbrev Pools : Type 0
Pools = String → Option (FarmPool coin_sets)

abbrev Keyed : Pools → Type 0
Keyed f = (name : String) (pool : FarmPool coin_sets) → f name ≡ some pool → pool.name ≡ name

update-Keyed :
    (f : Pools) (pool : FarmPool coin_sets) → Keyed f → Keyed (update f pool.name (some pool))
update-Keyed f pool all name found h = elim (Bool-cases (string_eq pool.name name)) [
  | inl t ↦
      ap (λ (p : FarmPool coin_sets). p.name) (some_pool (sym (rw t at h)))
      ∙ (eq_iff pool.name name).0 t
  | inr t ↦ all name found (rw t at h)
]
  where
    some_pool :
        {p q : FarmPool coin_sets} → ◌≡◌ {A = Option (FarmPool coin_sets)} (some p) (some q) → p ≡ q
    some_pool e = cc

none-Keyed : Keyed (λ name. none)
none-Keyed name pool h = cc

own_name : Keyed two_pools.pools
unfolding genesis coin_sets module_bank coin_math handle_msg_create_pool
own_name = update-Keyed _ _ (update-Keyed _ _ none-Keyed)

abbrev unlocking : MsgLock
unlocking = record { pool_name = "pq"; address = "bob"; amount = coin "usdk" (pos 20) }

handle_msg_destroy_pool-freezes_example :
    handle_msg_unlock coin_sets module_bank coin_math unlocking destroyed ≢ ok genesis
handle_msg_destroy_pool-freezes_example =
    handle_msg_destroy_pool-freezes coin_sets module_bank coin_math destruction unlocking "q"
      two_pools destroyed genesis own_name refl destroyed_ok
