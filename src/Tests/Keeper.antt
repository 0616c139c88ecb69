-- ===== src/Tests/Keeper.antt =====
-- An order that is placed and cancelled, with the coins and the fee that it locks.
use Prim.Native.Char.{code}
use Prim.Native.String.{String}
use okexchain.Base.{
  some, ◌≡◌, ◌≤◌, ◌+◌, ◌*◌, ◌/◌, ◌==◌, refl, ap, arith, ℕ, zero, suc, ℤ, pos, negsuc, ◌-ℤ◌, ◌≤ℤ◌,
  Bool, true, false, [], none, Result, ok, err, get, put, total,
}
use okexchain.Sdk.{coin}
use okexchain.Order.Types.{buy, locked_token}
use okexchain.Swap.Redeem.{split}
use okexchain.Order.Fill.{new_order}
use okexchain.Order.Cache.{new_disk_cache, cache_insert}
use okexchain.Token.{order_lock_coins, lock_coins, update_locked_coins}
use okexchain.Token.Backed.{locked}
use okexchain.Order.Keeper.{
  Formats, KeptOrder, order_cancel, Exchange, OrderError, new_dec, need_lock_coins,
  get_order_new_fee, get_order_cost_fee, try_place_order, place_order, quit_order,
}
use okexchain.Order.Keeper.Fees.{
  GrowsWithBlocks, SubtractsWhatItHolds, get_order_cost_fee-bounds, quit_order_total,
}
use okexchain.Order.Keeper.Booked.{locked_by}
use okexchain.Order.Keeper.Booked.Steps.{IsBooked, place, here, next, new_kept}
use okexchain.Order.Keeper.Booked.Quit.{Reach-IsBooked}
use okexchain.Tests.Setting.{dec_math, signed}
use okexchain.Tests.Farm.{coin_sets, module_bank}

-- A number in unary, before a rest.
digits : ℕ → String → String
digits zero rest = String.◌∷◌ "-" rest
digits (suc n) rest = String.◌∷◌ "1" (digits n rest)

starts_with_one : String → Bool
starts_with_one String.[] = false
starts_with_one (String.◌∷◌ c s) = code c == b'1'

tail_of : String → String
tail_of String.[] = String.[]
tail_of (String.◌∷◌ c s) = s

digits-eq :
    (n n' : ℕ) (rest rest' : String) → digits n rest ≡ digits n' rest' → (n ≡ n') × (rest ≡ rest')
unfolding digits starts_with_one tail_of
digits-eq zero zero rest rest' h = (refl, ap tail_of h)
digits-eq zero (suc n') rest rest' h = let e : false ≡ true = ap starts_with_one h in cc
digits-eq (suc n) zero rest rest' h = let e : true ≡ false = ap starts_with_one h in cc
digits-eq (suc n) (suc n') rest rest' h =
    let (e, f) = digits-eq n n' rest rest' (ap tail_of h) in (ap suc e, f)

-- An integer as the number of its place among 0, -1, 1, -2, 2 and so on
place_of : ℤ → ℕ
place_of (pos n) = 2 * n
place_of (negsuc n) = 2 * n + 1

place_of-eq : (a b : ℤ) → place_of a ≡ place_of b → a ≡ b
unfolding place_of
place_of-eq (pos n) (pos n') h = let e : n ≡ n' = omega arith in ap pos e
place_of-eq (pos n) (negsuc n') h = absurd (omega arith)
place_of-eq (negsuc n) (pos n') h = absurd (omega arith)
place_of-eq (negsuc n) (negsuc n') h = let e : n ≡ n' = omega arith in ap negsuc e

unfoldable pub format : ℤ → ℤ → String
unfolding digits place_of
format height num = digits (place_of height) (digits (place_of num) "")

pub format-eq : (h n h' n' : ℤ) → format h n ≡ format h' n' → (h ≡ h') × (n ≡ n')
unfolding format
format-eq h n h' n' e =
    let (heights, rest) = digits-eq (place_of h) (place_of h') _ _ e in
    let (nums, _) = digits-eq (place_of n) (place_of n') _ _ rest in
    (place_of-eq h h' heights, place_of-eq n n' nums)

unfoldable pub formats : Formats
unfolding format
formats = record {
  format_order_id = format;
  get_block_height_from_order_id = λ id. pos 3;
  format_order_id-eq = format-eq;
}

times_le : (a n n' : ℕ) → n ≤ n' → a * n ≤ a * n'
times_le zero n n' h = omega arith
times_le (suc a) n n' h = omega (arith, times_le a n n' h)

abbrev rounded : ℕ → ℕ
rounded x = (2 * x + 100000000) / 200000000

rounded_le : (x y : ℕ) → x ≤ y → rounded x ≤ rounded y
rounded_le x y h = omega arith

mul_zero : (a : ℤ) → dec_math.mul a (pos 0) ≡ pos 0
unfolding dec_math signed ◌-ℤ◌
mul_zero (pos a) = ap pos (ap rounded (nothing a))
  where
    nothing : (a : ℕ) → a * 0 ≡ 0
    nothing a = omega arith
mul_zero (negsuc a) = ap (λ n. pos 0 -ℤ pos n) (ap rounded (nothing (suc a)))
  where
    nothing : (a : ℕ) → a * 0 ≡ 0
    nothing a = omega arith

mul_grows :
    (a n n' : ℤ)
    → pos 0 ≤ℤ a
    → pos 0 ≤ℤ n
    → n ≤ℤ n'
    → dec_math.mul a (new_dec coin_sets module_bank formats "fee_collector" n)
      ≤ℤ dec_math.mul a (new_dec coin_sets module_bank formats "fee_collector" n')
unfolding dec_math signed
mul_grows (pos a) (pos n) (pos n') h h' h'' =
    let le = rounded_le _ _ (times_le a (n * 100000000) (n' * 100000000) (omega arith)) in
    omega arith
mul_grows (pos a) (pos n) (negsuc n') h h' h'' = absurd (omega arith)
mul_grows (pos a) (negsuc n) n' h h' h'' = absurd (omega arith)
mul_grows (negsuc a) n n' h h' h'' = absurd (omega arith)

pub grows : GrowsWithBlocks coin_sets module_bank formats "fee_collector"
unfolding dec_math
grows = record { mul_zero = mul_zero; mul_grows = mul_grows }

pub subtracts : SubtractsWhatItHolds coin_sets
unfolding coin_sets
subtracts x y h = (_, refl)

abbrev pub Store : Type 0
Store = Exchange coin_sets module_bank formats "fee_collector"

unfoldable pub start : Store
unfolding coin_sets module_bank
start = record {
  locks = record { quantities = λ addr. none; fees = λ addr. none; bank = λ account denom. pos 0 };
  cache = new_disk_cache;
  orders = [];
  block_order_num = λ height. pos 0;
  cancel_num = pos 0;
  expire_num = pos 0;
}

start-IsBooked : IsBooked coin_sets module_bank formats "fee_collector" "okt" "okt" start
unfolding start get locked_by locked total
start-IsBooked = record { numbered = λ id kept e. cc; booked = books }
  where
    books :
        (fee : Bool) (addr : String)
        → locked_by coin_sets module_bank "okt" fee start.locks addr ≡ pos 0
    books true addr = refl
    books false addr = refl

abbrev bid : KeptOrder
bid =
    new_kept coin_sets module_bank formats "fee_collector" "okt" "okt" "ann" "btc_okt" buy
      (pos 200000000) (pos 300000000) (coin "okt" (pos 5)) (pos 100)

get_order_cost_fee-bounds_example :
    (pos 0
      ≤ℤ coin_sets.amount "okt"
          (get_order_cost_fee coin_sets module_bank formats "fee_collector" "okt" (pos 9) bid))
    × (coin_sets.amount "okt"
          (get_order_cost_fee coin_sets module_bank formats "fee_collector" "okt" (pos 9) bid)
        ≤ℤ coin_sets.amount "okt"
            (get_order_new_fee coin_sets module_bank formats "fee_collector" bid))
get_order_cost_fee-bounds_example =
    get_order_cost_fee-bounds coin_sets module_bank formats "fee_collector" "okt" grows (pos 9) bid
      "okt" (omega arith) (omega arith)

bid_token : locked_token bid.order ≡ some "okt"
unfolding locked_token new_order split
bid_token = refl

quit_order_total_example :
    (st' : Store) × (quit_order coin_sets module_bank formats "fee_collector" "okt"
        (pos 9)
        order_cancel
        bid
        start
      ≡ ok st')
quit_order_total_example =
    quit_order_total coin_sets module_bank formats "fee_collector" "okt" grows subtracts (pos 9)
      order_cancel bid "okt" start (omega arith) (omega arith) bid_token

abbrev after_of : Result OrderError Store → Store
after_of (ok st) = st
after_of (err e) = start

abbrev with_bid : Store
with_bid = after_of (place_order coin_sets module_bank formats "fee_collector" (pos 3) bid start)

placed_ok :
    place_order coin_sets module_bank formats "fee_collector" (pos 3) bid start ≡ ok with_bid
unfolding start coin_sets module_bank formats format digits place_of new_order place_order
    locked_token split try_place_order order_lock_coins lock_coins update_locked_coins
    need_lock_coins get_order_new_fee dec_math signed put cache_insert
placed_ok = refl

Reach-IsBooked_example : IsBooked coin_sets module_bank formats "fee_collector" "okt" "okt" with_bid
Reach-IsBooked_example =
    Reach-IsBooked coin_sets module_bank formats "fee_collector" "okt" "okt" start-IsBooked (
      next here (
        place (pos 3) "ann" "btc_okt" buy (pos 200000000) (pos 300000000) (coin "okt" (pos 5))
          (pos 100) placed_ok))
