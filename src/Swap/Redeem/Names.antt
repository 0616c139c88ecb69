-- ===== src/Swap/Redeem/Names.antt =====
-- The names of pool tokens, put together and taken apart.
use Prim.Native.Char.{Char, code}
use Prim.Native.String.{String, ◌++◌}
use text.Mathlib.TextLemmas.{nil-append, cons-append, append_assoc}
use okexchain.Base.{
  ◌==◌, ◌≡◌, refl, ap, ◌∙◌, inl, inr, Bool, true, false, ◌||◌, Bool-cases, List, [], ◌∷◌, some,
  string_lt,
}
use okexchain.Swap.{get_pool_token_name, get_swap_token_pair_name, get_base_quote_token_name}
use okexchain.Swap.Redeem.{underscore, split, first_two, split_pool_token}

unfoldable pub has_underscore : String → Bool
has_underscore String.[] = false
has_underscore (String.◌∷◌ c s) = (code c == underscore) || has_underscore s

or_false : (a b : Bool) → (a || b) ≡ false → (a ≡ false) × (b ≡ false)
or_false false b h = (refl, h)
or_false true b h = cc

split-cons :
    (c : Char) (s part : String) (parts : List String)
    → (code c == underscore) ≡ false
    → split s ≡ (part, parts)
    → split (String.◌∷◌ c s) ≡ (String.◌∷◌ c part, parts)
unfolding split
split-cons c s part parts e f = rw (e, f)

split-underscore : (s : String) → split ("_" ++ s) ≡ ("", (split s).0 ∷ (split s).1)
unfolding split
split-underscore s =
    let e = cons-append "_" String.[] s ∙ ap (λ r. String.◌∷◌ "_" r) (nil-append s) in ap split e

-- A text with no underscore is one part, also before an underscore.
split_whole : (a : String) → has_underscore a ≡ false → split a ≡ (a, [])
unfolding has_underscore
split_whole String.[] h = unfold split in refl
split_whole (String.◌∷◌ c s) h =
    let (e, f) = or_false (code c == underscore) (has_underscore s) h in
    split-cons c s s [] e (split_whole s f)

split-append :
    (a b part : String) (parts : List String)
    → has_underscore a ≡ false
    → split b ≡ (part, parts)
    → split (a ++ ("_" ++ b)) ≡ (a, part ∷ parts)
unfolding has_underscore
split-append String.[] b part parts h e =
    rw (nil-append ("_" ++ b))
      (split-underscore b ∙ ap (λ (p : String × List String). ("", p.0 ∷ p.1)) e)
split-append (String.◌∷◌ c s) b part parts h e =
    let (f, g) = or_false (code c == underscore) (has_underscore s) h in
    rw (cons-append c s ("_" ++ b)) (split-cons c _ s _ f (split-append s b part parts g e))

-- SplitPoolToken takes the name that GetPoolTokenName makes of two tokens apart into the two, the base
-- token first, if neither has an underscore in its name.
pub split_pool_token-get_pool_token_name :
    (a b : String)
    → has_underscore a ≡ false
    → has_underscore b ≡ false
    → split_pool_token (get_pool_token_name a b) ≡ some (get_base_quote_token_name a b)
unfolding get_pool_token_name get_swap_token_pair_name get_base_quote_token_name split_pool_token
split_pool_token-get_pool_token_name a b h g =
    let ordered = λ (x y : String) (e : has_underscore x ≡ false) (f : has_underscore y ≡ false).
      ap (λ n. first_two (split n).1) (append_assoc "ammswap" "_" (x ++ ("_" ++ y)))
      ∙ ap (λ p. first_two p.1)
          (split-append "ammswap" (x ++ ("_" ++ y)) x (y ∷ []) (unfold has_underscore in refl)
            (split-append x y y [] e (split_whole y f))) in
    elim (Bool-cases (string_lt a b)) [
      | inl t ↦ rw t (ordered a b h g)
      | inr t ↦ rw t (ordered b a g h)
    ]
