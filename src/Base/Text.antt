-- ===== src/Base/Text.antt =====
-- Texts as Go compares them. `compare` goes by code points, which is the order of their UTF-8.
use Prim.Native.Nat.{Ordering, compare as compare_ℕ, ℕ}
use Prim.Native.Char.{Char, code}
use Prim.Native.String.{String, compare, then}
use Prim.Native.String.compare as cmp
use mathlib.Core.Path.{◌≡◌, refl}
use mathlib.Core.Bool.{Bool, true, false, not}
use mathlib.Core.Logic.{◌≢◌}
use text.Mathlib.TextEquality.{path_by_compare}
use text.Mathlib.TextPositions.{eq_refl}
use text.Mathlib.Text.{◌==◌ as string_eq}
use native.Mathlib.Omega.{arith}

abbrev pub string_lt : String → String → Bool
string_lt a b = elim (compare a b) [ Ordering.lt ↦ true | _ ↦ false ]

reverse_ordering : Ordering → Ordering
reverse_ordering Ordering.lt = Ordering.gt
reverse_ordering Ordering.eq = Ordering.eq
reverse_ordering Ordering.gt = Ordering.lt

compare_ℕ-reverse : (m n : ℕ) → compare_ℕ n m ≡ reverse_ordering (compare_ℕ m n)
unfolding reverse_ordering
compare_ℕ-reverse m n = ground arith

then-reverse :
    (o p : Ordering) → then (reverse_ordering o) (reverse_ordering p) ≡ reverse_ordering (then o p)
unfolding reverse_ordering
then-reverse Ordering.lt p = refl
then-reverse Ordering.eq p = refl
then-reverse Ordering.gt p = refl

compare-nil-cons : (d : Char) (t : String) → compare String.[] (String.◌∷◌ d t) ≡ Ordering.lt
compare-nil-cons d t = cmp.nil-cons d t

compare-cons-nil : (c : Char) (s : String) → compare (String.◌∷◌ c s) String.[] ≡ Ordering.gt
compare-cons-nil c s = cmp.cons-nil c s

compare-cons :
    (c d : Char) (s t : String)
    → compare (String.◌∷◌ c s) (String.◌∷◌ d t) ≡ then (compare_ℕ (code c) (code d)) (compare s t)
compare-cons c d s t = cmp.cons-cons c d s t

compare-reverse : (s t : String) → compare t s ≡ reverse_ordering (compare s t)
compare-reverse String.[] String.[] = unfold reverse_ordering in refl
compare-reverse String.[] (String.◌∷◌ d t) =
    rw (compare-cons-nil d t, compare-nil-cons d t) (unfold reverse_ordering in refl)
compare-reverse (String.◌∷◌ c s) String.[] =
    rw (compare-cons-nil c s, compare-nil-cons c s) (unfold reverse_ordering in refl)
compare-reverse (String.◌∷◌ c s) (String.◌∷◌ d t) =
    rw
      (
        compare-cons c d s t,
        compare-cons d c t s,
        compare-reverse s t,
        compare_ℕ-reverse (code c) (code d),
      )
      (then-reverse (compare_ℕ (code c) (code d)) (compare s t))

not-both :
    (s t : String) (o : Ordering) → compare s t ≡ o → s ≢ t → string_lt s t ≡ not (string_lt t s)
unfolding reverse_ordering
not-both s t Ordering.lt e ne = ground (arith, compare-reverse s t)
not-both s t Ordering.eq e ne = absurd (ne (path_by_compare s t e))
not-both s t Ordering.gt e ne = ground (arith, compare-reverse s t)

-- Of two texts that differ exactly one is the smaller.
pub string_lt-not : (s t : String) → s ≢ t → string_lt s t ≡ not (string_lt t s)
string_lt-not s t ne = not-both s t (compare s t) refl ne

pub string_eq_refl : (s : String) → (string_eq s s) ≡ true
string_eq_refl s = eq_refl s

asym :
    (s t : String) (o : Ordering) → compare s t ≡ o → string_lt s t ≡ true → string_lt t s ≡ false
unfolding reverse_ordering
asym s t Ordering.lt e h = ground (arith, compare-reverse s t)
asym s t Ordering.eq e h = ground (arith, compare-reverse s t)
asym s t Ordering.gt e h = ground (arith, compare-reverse s t)

pub string_lt_asym : (s t : String) → string_lt s t ≡ true → string_lt t s ≡ false
string_lt_asym s t h = asym s t (compare s t) refl h
