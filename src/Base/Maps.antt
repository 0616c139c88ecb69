-- ===== src/Base/Maps.antt =====
-- Stores under texts as lists of entries, for the stores that the program iterates over.
use Prim.Native.String.{String}
use mathlib.Core.Path.{◌≡◌, refl, sym, ap, ◌∙◌, subst}
use mathlib.Core.Logic.{◌⊎◌, inl, inr}
use mathlib.Core.Bool.{true, false}
use mathlib.Core.Option.{Option, none, some}
use mathlib.Core.List.{List, [], ◌∷◌}
use text.Mathlib.Text.{◌==◌ as string_eq}
use native.Mathlib.Omega.{arith}
use okexchain.Base.Tests.{if◌then◌else◌, Bool-cases}
use okexchain.Base.Int.{ℤ, pos, ◌+ℤ◌, ◌-ℤ◌, ◌≤ℤ◌, int_laws}
use okexchain.Base.Stores.{same_text}
use okexchain.Base.Text.{string_eq_refl}

pub other_text : (i k : String) → string_eq i k ≡ false → string_eq k i ≡ false
other_text i k t = elim (Bool-cases (string_eq k i)) [
  | inl u ↦ u ∙ sym (string_eq_refl i) ∙ ap (string_eq i) (sym (same_text u)) ∙ t
  | inr u ↦ u
]

module _ {A : Type 0} where
  -- Get, Set and Delete of a store.
  unfoldable pub get : String → List (String × A) → Option A
  get k [] = none
  get k ((j, v) ∷ m) = if string_eq j k then some v else get k m

  unfoldable pub put : String → A → List (String × A) → List (String × A)
  put k v [] = (k, v) ∷ []
  put k v ((j, w) ∷ m) = if string_eq j k then (k, v) ∷ m else (j, w) ∷ put k v m

  unfoldable pub delete : String → List (String × A) → List (String × A)
  delete k [] = []
  delete k ((j, w) ∷ m) = if string_eq j k then m else (j, w) ∷ delete k m

  -- No key has two entries.
  abbrev pub HasOneEach : List (String × A) → Type 0
  HasOneEach [] = Unit
  HasOneEach ((j, w) ∷ m) = (get j m ≡ none) × HasOneEach m

  -- A number read off each entry, added up.
  unfoldable pub total : (A → ℤ) → List (String × A) → ℤ
  total g [] = pos 0
  total g ((j, w) ∷ m) = g w +ℤ total g m

  abbrev pub at_option : (A → ℤ) → Option A → ℤ
  at_option g none = pos 0
  at_option g (some w) = g w

  pub get-put :
      (k j : String) (v : A) (m : List (String × A))
      → get j (put k v m) ≡ (if string_eq k j then some v else get j m)
  unfolding get put
  get-put k j v [] = refl
  get-put k j v ((i, w) ∷ m) = elim (Bool-cases (string_eq i k)) [
    | inl t ↦ rw t (elim (Bool-cases (string_eq k j)) [
      | inl s ↦ rw s
      | inr s ↦ rw s (
          sym (ap (λ b. if b then some w else get j m) (ap (λ a. string_eq a j) (same_text t) ∙ s)))
    ])
    | inr t ↦ rw t (elim (Bool-cases (string_eq i j)) [
      | inr s ↦ rw s (get-put k j v m)
      | inl s ↦
          rw s
            (elim (Bool-cases (string_eq k j)) [ inr u ↦ rw u | inl u ↦ cc (differs i k j s u t) ])
    ])
  ]
    where
      differs :
          (i k j : String)
          → string_eq i j ≡ true
          → string_eq k j ≡ true
          → string_eq i k ≡ false
          → false ≡ true
      differs i k j s u t = sym t ∙ ap (string_eq i) (same_text u) ∙ s

  pub get-put_self : (k : String) (v : A) (m : List (String × A)) → get k (put k v m) ≡ some v
  get-put_self k v m = get-put k k v m ∙ ap (λ b. if b then some v else get k m) (string_eq_refl k)

  pub get-put_other :
      (k j : String) (v : A) (m : List (String × A))
      → string_eq k j ≡ false
      → get j (put k v m) ≡ get j m
  get-put_other k j v m h = get-put k j v m ∙ ap (λ b. if b then some v else get j m) h

  pub get-delete_other :
      (k j : String) (m : List (String × A)) → string_eq k j ≡ false → get j (delete k m) ≡ get j m
  unfolding get delete
  get-delete_other k j [] h = refl
  get-delete_other k j ((i, w) ∷ m) h = elim (Bool-cases (string_eq i k)) [
    | inl t ↦
        rw t (
          sym (ap (λ b. if b then some w else get j m) (ap (λ a. string_eq a j) (same_text t) ∙ h)))
    | inr t ↦ rw t (ap (λ o. if string_eq i j then some w else o) (get-delete_other k j m h))
  ]

  pub get-delete_self :
      (k : String) (m : List (String × A)) → HasOneEach m → get k (delete k m) ≡ none
  unfolding get delete
  get-delete_self k [] h = refl
  get-delete_self k ((i, w) ∷ m) (out, rest) = elim (Bool-cases (string_eq i k)) [
    | inl t ↦ rw t (ap (λ a. get a m) (sym (same_text t)) ∙ out)
    | inr t ↦ rw (t, get, t) (get-delete_self k m rest)
  ]

  pub put-HasOneEach :
      (k : String) (v : A) (m : List (String × A)) → HasOneEach m → HasOneEach (put k v m)
  unfolding put get
  put-HasOneEach k v [] h = (refl, tt)
  put-HasOneEach k v ((i, w) ∷ m) (out, rest) = elim (Bool-cases (string_eq i k)) [
    | inl t ↦ rw t (ap (λ a. get a m) (sym (same_text t)) ∙ out, rest)
    | inr t ↦ rw t (get-put_other k i v m (other_text i k t) ∙ out, put-HasOneEach k v m rest)
  ]

  pub delete-HasOneEach :
      (k : String) (m : List (String × A)) → HasOneEach m → HasOneEach (delete k m)
  unfolding delete
  delete-HasOneEach k [] h = tt
  delete-HasOneEach k ((i, w) ∷ m) (out, rest) = elim (Bool-cases (string_eq i k)) [
    | inl t ↦ rw t rest
    | inr t ↦ rw t (get-delete_other k i m (other_text i k t) ∙ out, delete-HasOneEach k m rest)
  ]

  pub total-put :
      (g : A → ℤ) (k : String) (v : A) (m : List (String × A))
      → total g (put k v m) ≡ total g m -ℤ at_option g (get k m) +ℤ g v
  unfolding total put get
  total-put g k v [] = omega int_laws
  total-put g k v ((i, w) ∷ m) = elim (Bool-cases (string_eq i k)) [
    | inl t ↦ rw t (swapped (g v) (g w) (total g m))
    | inr t ↦ rw t (
        ap (◌+ℤ◌ (g w)) (total-put g k v m)
        ∙ regroup (g w) (total g m) (at_option g (get k m)) (g v))
  ]
    where
      swapped : (y a l : ℤ) → y +ℤ l ≡ a +ℤ l -ℤ a +ℤ y
      swapped y a l = omega int_laws

      regroup : (a l b y : ℤ) → a +ℤ (l -ℤ b +ℤ y) ≡ a +ℤ l -ℤ b +ℤ y
      regroup a l b y = omega int_laws

  pub total-delete :
      (g : A → ℤ) (k : String) (m : List (String × A))
      → total g (delete k m) ≡ total g m -ℤ at_option g (get k m)
  unfolding total delete get
  total-delete g k [] = omega int_laws
  total-delete g k ((i, w) ∷ m) = elim (Bool-cases (string_eq i k)) [
    | inl t ↦ rw t (dropped (g w) (total g m))
    | inr t ↦
        rw t
          (ap (◌+ℤ◌ (g w)) (total-delete g k m) ∙ regroup (g w) (total g m) (at_option g (get k m)))
  ]
    where
      dropped : (a l : ℤ) → l ≡ a +ℤ l -ℤ a
      dropped a l = omega int_laws

      regroup : (a l b : ℤ) → a +ℤ (l -ℤ b) ≡ a +ℤ l -ℤ b
      regroup a l b = omega int_laws

  some-is : {v w : A} → some v ≡ some w → v ≡ w
  some-is h = cc

  get-later :
      (i j : String) (w v : A) (m : List (String × A))
      → get i m ≡ none
      → get j m ≡ some v
      → get j ((i, w) ∷ m) ≡ some v
  unfolding get
  get-later i j w v m out e = elim (Bool-cases (string_eq i j)) [
    | inl t ↦ let e' : get i m ≡ some v = ap (λ a. get a m) (same_text t) ∙ e in cc
    | inr t ↦ rw t e
  ]

  -- What the entry of a key adds is at most the whole, where no entry is negative.
  pub get-le-total :
      (g : A → ℤ) (m : List (String × A))
      → HasOneEach m
      → ((j : String) (w : A) → get j m ≡ some w → pos 0 ≤ℤ g w)
      → (pos 0 ≤ℤ total g m) × ((k : String) (v : A) → get k m ≡ some v → g v ≤ℤ total g m)
  unfolding total get
  get-le-total g [] one h = (omega arith, λ k v e. cc)
  get-le-total g ((i, w) ∷ m) (out, rest) h =
      let here : pos 0 ≤ℤ g w = h i w (rw (string_eq_refl i)) in
      let (sum, each) = get-le-total g m rest (λ j v e. h j v (get-later i j w v m out e)) in
      (
        more (g w) (total g m) here sum,
        λ k v e. elim (Bool-cases (string_eq i k)) [
          | inl t ↦
              subst (λ x. g x ≤ℤ g w +ℤ total g m) (some-is (rw t at e))
                (left (g w) (total g m) sum)
          | inr t ↦ right (g v) (g w) (total g m) here (each k v (rw t at e))
        ],
      )
    where
      more : (a b : ℤ) → pos 0 ≤ℤ a → pos 0 ≤ℤ b → pos 0 ≤ℤ a +ℤ b
      more a b h k = omega int_laws

      left : (a b : ℤ) → pos 0 ≤ℤ b → a ≤ℤ a +ℤ b
      left a b h = omega int_laws

      right : (v a b : ℤ) → pos 0 ≤ℤ a → v ≤ℤ b → v ≤ℤ a +ℤ b
      right v a b h k = omega int_laws

  -- Where an entry that is found comes from.
  pub get-put-cases :
      (k j : String) (v w : A) (m : List (String × A))
      → get j (put k v m) ≡ some w
      → ((k ≡ j) × (v ≡ w)) ⊎ ((string_eq k j ≡ false) × (get j m ≡ some w))
  get-put-cases k j v w m h = elim (Bool-cases (string_eq k j)) [
    | inl t ↦ inl (
      same_text t,
      some-is (sym (ap (λ b. if b then some v else get j m) t) ∙ sym (get-put k j v m) ∙ h),
    )
    | inr t ↦ inr (t, sym (get-put_other k j v m t) ∙ h)
  ]

  pub get-delete-some :
      (k j : String) (w : A) (m : List (String × A))
      → HasOneEach m
      → get j (delete k m) ≡ some w
      → (string_eq k j ≡ false) × (get j m ≡ some w)
  get-delete-some k j w m one h = elim (Bool-cases (string_eq k j)) [
    | inl t ↦
        let e : get k (delete k m) ≡ some w = ap (λ a. get a (delete k m)) (same_text t) ∙ h in
        cc (get-delete_self k m one)
    | inr t ↦ (t, sym (get-delete_other k j m t) ∙ h)
  ]
