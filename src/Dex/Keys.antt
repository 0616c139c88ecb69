-- ===== src/Dex/Keys.antt =====
-- The keys of withdrawals by time and address: what is found after a write and a deletion.
use Prim.Native.String.{String}
use text.Mathlib.Text.{◌==◌ as string_eq}
use okexchain.Base.{
  ◌≡◌, refl, sym, ap, ◌∙◌, inl, inr, ℤ, eqb_ℤ, not, eq_of_parts, Bool, true, false, ◌&&◌, ◌||◌,
  Bool-cases, List, [], ◌∷◌, Option, none, some, arith, same_text, string_eq_refl,
}
use okexchain.Dex.Types.{Time, WithdrawInfo}
use okexchain.Dex.Keeper.{
  same_time_key, time_key_lt, set_withdraw_time, delete_withdraw_time, without_withdraw_time,
}

unfoldable pub has_withdraw_time : Time → String → List (Time × String) → Bool
has_withdraw_time t a [] = false
has_withdraw_time t a ((u, b) ∷ keys) = same_time_key t a u b || has_withdraw_time t a keys

pub or_true : (a b : Bool) → b ≡ true → (a || b) ≡ true
or_true true b h = refl
or_true false b h = h

or_right : (a b : Bool) → a ≡ false → (a || b) ≡ true → b ≡ true
or_right false b e h = h
or_right true b e h = cc

pub same_key_refl : (t : Time) (a : String) → same_time_key t a t a ≡ true
same_key_refl t a = rw (string_eq_refl a) (ground arith)

pub same_time_key-eq :
    (t : Time) (a : String) (u : Time) (b : String)
    → same_time_key t a u b ≡ true
    → (t ≡ u) × (a ≡ b)
same_time_key-eq t a u b h = (
  same_number t u (left (eqb_ℤ t u) (string_eq a b) h),
  same_text (right (eqb_ℤ t u) (string_eq a b) h),
)
  where
    left : (x y : Bool) → (x && y) ≡ true → x ≡ true
    left true y h = refl
    left false y h = cc

    right : (x y : Bool) → (x && y) ≡ true → y ≡ true
    right true y h = h
    right false y h = cc

    same_number : (t u : ℤ) → eqb_ℤ t u ≡ true → t ≡ u
    same_number t u h = eq_of_parts t u (ground arith)

same_key_comm :
    (t : Time) (a : String) (v : Time) (d : String)
    → same_time_key t a v d ≡ false
    → same_time_key v d t a ≡ false
same_key_comm t a v d h = elim (Bool-cases (same_time_key v d t a)) [
  | inl s ↦
      let (e, f) = same_time_key-eq v d t a s in
      cc (
        sym (same_key_refl t a)
        ∙ ap (λ x. same_time_key t a x a) (sym e)
        ∙ ap (same_time_key t a v) (sym f)
        ∙ h)
  | inr s ↦ s
]

pub has-set_withdraw_time :
    (t : Time) (a : String) (keys : List (Time × String))
    → has_withdraw_time t a (set_withdraw_time t a keys) ≡ true
unfolding has_withdraw_time set_withdraw_time
has-set_withdraw_time t a [] = rw (same_key_refl t a)
has-set_withdraw_time t a ((u, b) ∷ keys) = elim (Bool-cases (same_time_key t a u b)) [
  | inl same ↦ rw (same, has_withdraw_time, same)
  | inr other ↦ rw other (elim (Bool-cases (time_key_lt t a u b)) [
    | inl lt ↦ rw (lt, has_withdraw_time, same_key_refl t a)
    | inr ge ↦ rw (ge, has_withdraw_time) (or_true _ _ (has-set_withdraw_time t a keys))
  ])
]

pub has-set_withdraw_time_other :
    (t : Time) (a : String) (v : Time) (d : String) (keys : List (Time × String))
    → has_withdraw_time v d keys ≡ true
    → has_withdraw_time v d (set_withdraw_time t a keys) ≡ true
unfolding has_withdraw_time set_withdraw_time
has-set_withdraw_time_other t a v d [] h = cc
has-set_withdraw_time_other t a v d ((u, b) ∷ keys) h = elim (Bool-cases (same_time_key t a u b)) [
  | inl same ↦ rw same h
  | inr other ↦ rw other (elim (Bool-cases (time_key_lt t a u b)) [
    | inl lt ↦ rw lt (or_true _ _ h)
    | inr ge ↦ rw ge (elim (Bool-cases (same_time_key v d u b)) [
      | inl s ↦ rw (has_withdraw_time, s)
      | inr s ↦ rw (has_withdraw_time, s) (has-set_withdraw_time_other t a v d keys (rw s at h))
    ])
  ])
]

-- Two keys name different things: they are not the same key.
pub other_key :
    (t : Time) (a : String) (u : Time) (b : String)
    → string_eq a b ≡ false
    → same_time_key t a u b ≡ false
other_key t a u b h = elim (Bool-cases (same_time_key t a u b)) [
  | inl s ↦
      let e : a ≡ b = (same_time_key-eq t a u b s).1 in
      cc (sym (string_eq_refl a) ∙ ap (string_eq a) e ∙ h)
  | inr s ↦ s
]

pub has-delete_withdraw_time :
    (t : Time) (a : String) (v : Time) (d : String) (keys : List (Time × String))
    → has_withdraw_time v d (delete_withdraw_time t a keys)
      ≡ (not (same_time_key t a v d) && has_withdraw_time v d keys)
unfolding has_withdraw_time delete_withdraw_time
has-delete_withdraw_time t a v d [] = refl_right (same_time_key t a v d)
  where
    refl_right : (x : Bool) → false ≡ (not x && false)
    refl_right true = refl
    refl_right false = refl
has-delete_withdraw_time t a v d ((u, b) ∷ keys) =
    let rest = has-delete_withdraw_time t a v d keys in
    elim (Bool-cases (same_time_key v d u b)) [
      | inl x ↦
          let e = same_as t a v d u b x in
          elim (Bool-cases (same_time_key t a u b)) [
            | inl same ↦ rw same (rest ∙ drops _ _ _ (e ∙ same))
            | inr other ↦ rw other (rw (has_withdraw_time, x) (sym (ap not (e ∙ other)) ∙ keeps _))
          ]
      | inr x ↦ elim (Bool-cases (same_time_key t a u b)) [
        | inl same ↦ rw same (rw x rest)
        | inr other ↦ rw other (rw (has_withdraw_time, x) rest)
      ]
    ]
  where
    same_as :
        (t : Time) (a : String) (v : Time) (d : String) (u : Time) (b : String)
        → same_time_key v d u b ≡ true
        → same_time_key t a v d ≡ same_time_key t a u b
    same_as t a v d u b x =
        let (e, f) = same_time_key-eq v d u b x in
        ap (λ w. same_time_key t a w d) e ∙ ap (same_time_key t a u) f

    drops : (x y z : Bool) → x ≡ true → (not x && y) ≡ (not x && z)
    drops true y z h = refl
    drops false y z h = cc

    keeps : (x : Bool) → not x ≡ (not x && true)
    keeps true = refl
    keeps false = refl

pub has-set_withdraw_time_from :
    (t : Time) (a : String) (v : Time) (d : String) (keys : List (Time × String))
    → has_withdraw_time v d (set_withdraw_time t a keys) ≡ true
    → same_time_key t a v d ≡ false
    → has_withdraw_time v d keys ≡ true
unfolding has_withdraw_time set_withdraw_time
has-set_withdraw_time_from t a v d [] h ne = cc (same_key_comm t a v d ne)
has-set_withdraw_time_from t a v d ((u, b) ∷ keys) h ne =
    elim (Bool-cases (same_time_key t a u b)) [
      | inl same ↦ rw same at h
      | inr other ↦ elim (Bool-cases (time_key_lt t a u b)) [
        | inl lt ↦ let h1 = rw (other, lt) at h in or_right _ _ (same_key_comm t a v d ne) h1
        | inr ge ↦
            let h1 = rw (other, ge) at h in
            elim (Bool-cases (same_time_key v d u b)) [
              | inl x ↦ rw x
              | inr x ↦ rw x (has-set_withdraw_time_from t a v d keys (rw x at h1) ne)
            ]
      ]
    ]

pub has-delete_withdraw_time_other :
    (t : Time) (a : String) (v : Time) (d : String) (keys : List (Time × String))
    → string_eq a d ≡ false
    → has_withdraw_time v d keys ≡ true
    → has_withdraw_time v d (delete_withdraw_time t a keys) ≡ true
has-delete_withdraw_time_other t a v d keys ne h =
    has-delete_withdraw_time t a v d keys
    ∙ ap (λ x. not x && has_withdraw_time v d keys) (other_key t a v d ne)
    ∙ h

pub has-without_withdraw_time :
    (addr : String) (o : Option WithdrawInfo) (v : Time) (d : String) (keys : List (Time × String))
    → string_eq addr d ≡ false
    → has_withdraw_time v d keys ≡ true
    → has_withdraw_time v d (without_withdraw_time addr o keys) ≡ true
has-without_withdraw_time addr none v d keys ne h = h
has-without_withdraw_time addr (some info) v d keys ne h =
    has-delete_withdraw_time_other info.complete_time addr v d keys ne h

-- A key that is left is an old one, and not the one that is deleted.
pub has-delete_withdraw_time_from :
    (t : Time) (a : String) (v : Time) (d : String) (keys : List (Time × String))
    → has_withdraw_time v d (delete_withdraw_time t a keys) ≡ true
    → (same_time_key t a v d ≡ false) × (has_withdraw_time v d keys ≡ true)
has-delete_withdraw_time_from t a v d keys h =
    both (same_time_key t a v d) _ (sym (has-delete_withdraw_time t a v d keys) ∙ h)
  where
    both : (x y : Bool) → (not x && y) ≡ true → (x ≡ false) × (y ≡ true)
    both true y h = cc
    both false y h = (refl, h)
