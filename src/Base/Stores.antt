-- ===== src/Base/Stores.antt =====
-- Stores as functions from texts: a write to one key, and sums over some keys.
use Prim.Native.String.{String}
use mathlib.Core.Path.{◌≡◌, refl, sym, ap, ◌∙◌}
use mathlib.Core.Logic.{inl, inr}
use mathlib.Core.Bool.{Bool, true, false, ◌&&◌, ◌||◌, not}
use mathlib.Core.List.{List, [], ◌∷◌}
use text.Mathlib.Text.{◌==◌ as string_eq}
use text.Mathlib.TextEquality.{eq_iff}
use okexchain.Base.Tests.{if◌then◌else◌, Bool-cases}
use okexchain.Base.Int.{ℤ, pos, ◌+ℤ◌, ◌-ℤ◌, int_laws}

-- A write; `none` deletes where the values are options.
abbrev pub update {ℓ} : {A : Type ℓ} → (String → A) → String → A → String → A
update f key value k = if string_eq key k then value else f k

unfoldable pub occurs : String → List String → Bool
occurs name [] = false
occurs name (n ∷ names) = string_eq name n || occurs name names

unfoldable pub distinct : List String → Bool
distinct [] = true
distinct (n ∷ names) = not (occurs n names) && distinct names

-- The value of a store at each of some names, added up.
unfoldable pub sum_over : {A : Type 0} → (A → ℤ) → List String → (String → A) → ℤ
sum_over g [] f = pos 0
sum_over g (n ∷ names) f = g (f n) +ℤ sum_over g names f

pub same_text : {a b : String} → string_eq a b ≡ true → a ≡ b
same_text {a} {b} h = (eq_iff a b).0 h

pub or_false : (a b : Bool) → (a || b) ≡ false → (a ≡ false) × (b ≡ false)
or_false false b h = (refl, h)
or_false true b h = cc

not_and : (a b : Bool) → (not a && b) ≡ true → (a ≡ false) × (b ≡ true)
not_and false b h = (refl, h)
not_and true b h = cc

sum_over-update_out :
    {A : Type 0} (g : A → ℤ) (names : List String) (f : String → A) (name : String) (x : A)
    → occurs name names ≡ false
    → sum_over g names (update f name x) ≡ sum_over g names f
unfolding sum_over occurs
sum_over-update_out g [] f name x h = refl
sum_over-update_out g (n ∷ names) f name x h =
    let (e, h1) = or_false (string_eq name n) (occurs name names) h in
    rw e (ap (◌+ℤ◌ (g (f n))) (sum_over-update_out g names f name x h1))

pub sum_over-update :
    {A : Type 0} (g : A → ℤ) (names : List String) (f : String → A) (name : String) (x : A)
    → distinct names ≡ true
    → occurs name names ≡ true
    → sum_over g names (update f name x) ≡ sum_over g names f -ℤ g (f name) +ℤ g x
unfolding sum_over occurs distinct
sum_over-update g [] f name x h h' = cc
sum_over-update g (n ∷ names) f name x h h' =
    let (out, rest) = not_and (occurs n names) (distinct names) h in
    elim (Bool-cases (string_eq name n)) [
      | inl t ↦
          let e = same_text t in
          rw t (
            ap (◌+ℤ◌ (g x))
              (sum_over-update_out g names f name x (ap (λ a. occurs a names) e ∙ out))
            ∙ swapped (g x) (g (f n)) _ (g (f name)) (ap (λ a. g (f a)) (sym e)))
      | inr t ↦ rw t (
          ap (◌+ℤ◌ (g (f n))) (sum_over-update g names f name x rest (rw t at h'))
          ∙ regroup (g (f n)) (sum_over g names f) (g (f name)) (g x))
    ]
  where
    swapped : (y a l b : ℤ) → a ≡ b → y +ℤ l ≡ a +ℤ l -ℤ b +ℤ y
    swapped y a l b e = turn y a l ∙ ap (λ n. a +ℤ l -ℤ n +ℤ y) e
      where
        turn : (y a l : ℤ) → y +ℤ l ≡ a +ℤ l -ℤ a +ℤ y
        turn y a l = omega int_laws

    regroup : (a l b y : ℤ) → a +ℤ (l -ℤ b +ℤ y) ≡ a +ℤ l -ℤ b +ℤ y
    regroup a l b y = omega int_laws
