-- ===== src/Order/Cache/Open.antt =====
-- The abstract view of the disk cache: the open orders, in the order in which they came.
use Prim.Native.String.{String}
use text.Mathlib.Text.{◌==◌ as string_eq}
use text.Mathlib.TextEquality.{eq_iff}
use okexchain.Base.{
  ◌≡◌, refl, sym, ap, ◌∙◌, ℤ, pos, ◌+ℤ◌, ◌≤ℤ◌, ◌<ℤ◌, int_laws, +ℤ_parts, zero_+ℤ, Bool, true, false,
  ◌||◌, Bool-cases, inl, inr, List, [], ◌∷◌, ◌++◌, some, if◌then◌else◌, arith, string_eq_refl,
}
use okexchain.Sdk.{SdkDec}
use okexchain.Order.Types.{Order, Side}
use okexchain.Order.Book.Laws.{share}
use okexchain.Order.Cache.{is_key, without_id}

-- What an open order brings to a side of a product's book at a price.
abbrev pub part : String → Side → SdkDec → Order → ℤ
part product side price order =
    if string_eq order.product product then share side price order else pos 0

unfoldable pub total : String → Side → SdkDec → List Order → ℤ
total product side price [] = pos 0
total product side price (order ∷ orders) =
    part product side price order +ℤ total product side price orders

-- The ids of the open orders of one key.
unfoldable pub ids_at : String → SdkDec → Side → List Order → List String
ids_at product price side [] = []
ids_at product price side (order ∷ orders) =
    if is_key order.product order.price order.side product price side
    then order.order_id ∷ ids_at product price side orders
    else ids_at product price side orders

unfoldable pub known : String → List Order → Bool
known id [] = false
known id (order ∷ orders) = string_eq id order.order_id || known id orders

-- Each open order wants something, and no id stands twice.
abbrev pub Fresh : List Order → Type 0
Fresh [] = Unit
Fresh (order ∷ orders) =
    (pos 0 <ℤ order.remain_quantity) × (known order.order_id orders ≡ false) × Fresh orders

regroup : (a b c : ℤ) → a +ℤ (b +ℤ c) ≡ a +ℤ b +ℤ c
regroup a b c = omega int_laws

pub total-append :
    (product : String) (side : Side) (price : SdkDec) (xs ys : List Order)
    → total product side price (xs ++ ys)
      ≡ total product side price xs +ℤ total product side price ys
unfolding total
total-append product side price [] ys = sym (zero_+ℤ _)
total-append product side price (x ∷ xs) ys =
    ap (◌+ℤ◌ (part product side price x)) (total-append product side price xs ys)
    ∙ regroup (part product side price x) (total product side price xs)
        (total product side price ys)

pub ids_at-append :
    (product : String) (price : SdkDec) (side : Side) (xs ys : List Order)
    → ids_at product price side (xs ++ ys)
      ≡ ids_at product price side xs ++ ids_at product price side ys
unfolding ids_at
ids_at-append product price side [] ys = refl
ids_at-append product price side (x ∷ xs) ys =
    elim (Bool-cases (is_key x.product x.price x.side product price side)) [
      | inl t ↦ rw t (ap (◌∷◌ x.order_id) (ids_at-append product price side xs ys))
      | inr t ↦ rw t (ids_at-append product price side xs ys)
    ]

part-nonneg :
    (product : String) (side : Side) (price : SdkDec) (order : Order)
    → pos 0 <ℤ order.remain_quantity
    → pos 0 ≤ℤ part product side price order
part-nonneg product side price order h = ground arith

pub total-nonneg :
    (product : String) (side : Side) (price : SdkDec) (orders : List Order)
    → Fresh orders
    → pos 0 ≤ℤ total product side price orders
unfolding total
total-nonneg product side price [] h = omega arith
total-nonneg product side price (x ∷ xs) (h, _, rest) =
    let a = part-nonneg product side price x h in
    let b = total-nonneg product side price xs rest in
    omega (arith, +ℤ_parts (part product side price x) (total product side price xs))

own_part : (order : Order) → part order.product order.side order.price order ≡ order.remain_quantity
own_part order = rw (string_eq_refl order.product) (ground arith)

-- Where an open order stands, its side of the book has some quantity.
pub total-pos :
    (before after : List Order) (order : Order)
    → Fresh (before ++ order ∷ after)
    → pos 0 <ℤ total order.product order.side order.price (before ++ order ∷ after)
unfolding total
total-pos [] after order (h, _, rest) =
    let a = total-nonneg order.product order.side order.price after rest in
    let own = own_part order in
    let sum =
      +ℤ_parts (part order.product order.side order.price order)
        (total order.product order.side order.price after) in
    ground (arith, a, own, sum, h)
total-pos (x ∷ before) after order (h, _, rest) =
    let a = part-nonneg order.product order.side order.price x h in
    let b = total-pos before after order rest in
    omega (
      arith,
      +ℤ_parts (part order.product order.side order.price x)
          (total order.product order.side order.price (before ++ order ∷ after)),
    )

or_false : (a b : Bool) → (a || b) ≡ false → (a ≡ false) × (b ≡ false)
or_false false b h = (refl, h)
or_false true b h = cc

or_intro : (a b : Bool) → a ≡ false → b ≡ false → (a || b) ≡ false
or_intro a b e f = rw (e, f) refl

-- An id that is not known is not that of an order in the middle, nor known once that has gone.
known-middle :
    (id : String) (before after : List Order) (order : Order)
    → known id (before ++ order ∷ after) ≡ false
    → (string_eq id order.order_id ≡ false) × (known id (before ++ after) ≡ false)
unfolding known
known-middle id [] after order h = or_false (string_eq id order.order_id) (known id after) h
known-middle id (x ∷ before) after order h =
    let (e, rest) = or_false (string_eq id x.order_id) _ h in
    let (own, left) = known-middle id before after order rest in
    (own, or_intro (string_eq id x.order_id) (known id (before ++ after)) e left)

pub Fresh-without :
    (before after : List Order) (order : Order)
    → Fresh (before ++ order ∷ after)
    → Fresh (before ++ after)
Fresh-without [] after order (_, _, rest) = rest
Fresh-without (x ∷ before) after order (h, other, rest) =
    (h, (known-middle x.order_id before after order other).1, Fresh-without before after order rest)

string_eq_comm : (a b : String) → string_eq a b ≡ false → string_eq b a ≡ false
string_eq_comm a b h = elim (Bool-cases (string_eq b a)) [
  | inl t ↦ let e = (eq_iff b a).0 t in let same = ap (string_eq a) e ∙ string_eq_refl a in cc
  | inr t ↦ t
]

known-append :
    (id : String) (xs : List Order) (order : Order)
    → known id xs ≡ false
    → string_eq id order.order_id ≡ false
    → known id (xs ++ order ∷ []) ≡ false
unfolding known
known-append id [] order h e = or_intro (string_eq id order.order_id) false e refl
known-append id (x ∷ xs) order h e =
    let (other, rest) = or_false (string_eq id x.order_id) (known id xs) h in
    or_intro (string_eq id x.order_id) _ other (known-append id xs order rest e)

pub Fresh-append :
    (orders : List Order) (order : Order)
    → Fresh orders
    → pos 0 <ℤ order.remain_quantity
    → known order.order_id orders ≡ false
    → Fresh (orders ++ order ∷ [])
unfolding known
Fresh-append [] order h wants new = (wants, refl, tt)
Fresh-append (x ∷ orders) order (h, other, rest) wants new =
    let (e, new1) =
      or_false (string_eq order.order_id x.order_id) (known order.order_id orders) new in
    (
      h,
      known-append x.order_id orders order other (string_eq_comm order.order_id x.order_id e),
      Fresh-append orders order rest wants new1,
    )

without_id-skip :
    (id x : String) (ids left : List String)
    → string_eq x id ≡ false
    → without_id id ids ≡ some left
    → without_id id (x ∷ ids) ≡ some (x ∷ left)
unfolding without_id
without_id-skip id x ids left ne e = rw (ne, e) refl

-- An order that leaves the list is found first among the ids of its key.
pub without_id-ids_at :
    (product : String) (price : SdkDec) (side : Side) (before after : List Order) (order : Order)
    → Fresh (before ++ order ∷ after)
    → is_key order.product order.price order.side product price side ≡ true
    → without_id order.order_id (ids_at product price side (before ++ order ∷ after))
      ≡ some (ids_at product price side (before ++ after))
unfolding ids_at without_id
without_id-ids_at product price side [] after order fresh own =
    rw own (rw (string_eq_refl order.order_id) refl)
without_id-ids_at product price side (x ∷ before) after order (_, other, rest) own =
    let (ne, _) = known-middle x.order_id before after order other in
    let ih = without_id-ids_at product price side before after order rest own in
    elim (Bool-cases (is_key x.product x.price x.side product price side)) [
      | inl t ↦ rw t (
          without_id-skip order.order_id x.order_id
            (ids_at product price side (before ++ order ∷ after)) _ ne ih)
      | inr t ↦ rw t ih
    ]
