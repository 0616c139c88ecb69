-- ===== src/Swap/Handler/Create.antt =====
-- handleMsgCreateExchange of x/ammswap/handler.go, and the names of pairs.
use Prim.Native.String.{String}
use text.Mathlib.Text.{◌==◌ as string_eq}
use text.Mathlib.TextEquality.{eq_iff}
use okexchain.Base.{
  ℕ, ◌≡◌, ◌≢◌, refl, sym, ◌∙◌, ap, inl, inr, Bool, Bool-cases, true, false, Option, none, some, ok,
  err, string_lt, string_lt-not, string_eq_refl, fail_if->>-eq-ok, >>=-eq-ok, ok-eq,
}
use okexchain.Sdk.{DecMath, CoinMath, SupplyKeeper}
use okexchain.Swap.{
  SwapTokenPair, new_swap_pair, get_swap_token_pair_name, get_pool_token_name,
  get_base_quote_token_name,
}
use okexchain.Swap.Handler.{
  Tokens, generate_token_type, State, update, is_token_exist, handle_msg_create_exchange,
  swap_token_pair_exist,
}

-- The names of a pair and of its pool token do not depend on the order of the tokens.
pub get_swap_token_pair_name_comm :
    (a b : String) → a ≢ b → get_swap_token_pair_name a b ≡ get_swap_token_pair_name b a
unfolding get_swap_token_pair_name get_base_quote_token_name
get_swap_token_pair_name_comm a b ne = elim (Bool-cases (string_lt b a)) [
  | inl t ↦ rw (string_lt-not a b ne, t) refl
  | inr t ↦ rw (string_lt-not a b ne, t) refl
]

-- A token that exists is not one that is made now.
is_token_exist-update :
    (tokens : Tokens) (key name : String) (kind : ℕ)
    → tokens key ≡ none
    → is_token_exist tokens name ≡ ok tt
    → is_token_exist (update tokens key kind) name ≡ ok tt
unfolding is_token_exist
is_token_exist-update tokens key name kind new h = elim (Bool-cases (string_eq key name)) [
  | inl t ↦ cc ((eq_iff key name).0 t)
  | inr t ↦ rw t h
]

abbrev taken : {A : Type 0} → Option A → Bool
taken o = elim o [ none ↦ false | some _ ↦ true ]

taken-none : {A : Type 0} (o : Option A) → taken o ≡ false → o ≡ none
taken-none none h = refl
taken-none (some a) h = cc

update-same :
    {A : Type 0} (f : String → Option A) (key : String) (value : A)
    → update f key value key ≡ some value
update-same f key value = rw (string_eq_refl key) refl

module _ (m : DecMath) (c : CoinMath) (k : SupplyKeeper) where
  exists_already :
      (a b : String) (s : State m c k) (pair : SwapTokenPair)
      → is_token_exist s.tokens a ≡ ok tt
      → is_token_exist s.tokens b ≡ ok tt
      → s.pairs (get_swap_token_pair_name a b) ≡ some pair
      → handle_msg_create_exchange m c k (record { token0_name = a; token1_name = b }) s
        ≡ err swap_token_pair_exist
  unfolding handle_msg_create_exchange
  exists_already a b s pair ha hb h = rw (ha, hb, h) refl

  -- For two tokens with different names, handleMsgCreateExchange succeeds only where they have no
  -- pair yet; it then stores the new pair, and the message for the same tokens the other way round
  -- is refused, since the pair exists.
  pub handle_msg_create_exchange-again :
      (a b : String) (s s' : State m c k)
      → a ≢ b
      → handle_msg_create_exchange m c k (record { token0_name = a; token1_name = b }) s ≡ ok s'
      → (s.pairs (get_swap_token_pair_name a b) ≡ none)
        × (s'.pairs (get_swap_token_pair_name a b) ≡ some (new_swap_pair a b))
        × (handle_msg_create_exchange m c k (record { token0_name = b; token1_name = a }) s'
            ≡ err swap_token_pair_exist)
  unfolding handle_msg_create_exchange
  handle_msg_create_exchange-again a b s s' ne h =
      let name = get_swap_token_pair_name a b in
      let pool_token = get_pool_token_name a b in
      let (_, e1, h1) = >>=-eq-ok (is_token_exist s.tokens a) _ h in
      let (_, e2, h2) = >>=-eq-ok (is_token_exist s.tokens b) _ h1 in
      let (e3, h3) = fail_if->>-eq-ok (taken (s.pairs name)) _ _ h2 in
      let (e4, h4) = fail_if->>-eq-ok (taken (s.tokens pool_token)) _ _ h3 in
      let after = sym (ok-eq h4) in
      let free = taken-none (s.tokens pool_token) e4 in
      let stored : s'.pairs name ≡ some (new_swap_pair a b) =
        ap (λ t. t.pairs name) after ∙ update-same s.pairs name (new_swap_pair a b) in
      let still = λ (token : String) (e : is_token_exist s.tokens token ≡ ok tt).
        ap (λ t. is_token_exist t.tokens token) after
        ∙ is_token_exist-update s.tokens pool_token token generate_token_type free e in
      (
        taken-none (s.pairs name) e3,
        stored,
        exists_already b a s' (new_swap_pair a b) (still b e2) (still a e1)
            (ap s'.pairs (sym (get_swap_token_pair_name_comm a b ne)) ∙ stored),
      )
