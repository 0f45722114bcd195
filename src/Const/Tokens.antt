-- ===== src/Const/Tokens.antt =====
-- src/const/token.ts: the contracts by which the system shows its own tokens as ERC20.
use scan_service.Prelude.{
  ℕ, ◌≡◌, refl, ap, sym, ◌∙◌, Option, none, some, List, [], ◌∷◌, Bool, true, false, if◌then◌else◌,
  inl, inr, Bool-cases, All,
}
use scan_service.Prelude.Text.{Text, codes, to_lower_case}
use scan_service.Env.Model.{
  Network, main_net, test_net, verse_main, verse_test, Token, mtr, mtrg, erc20, erc721, erc1155,
  mtrg_v2,
}

pub record TokenBasic : Type 0 where
  pub name : Text
  pub address : Text
  pub token : Token
  pub decimals : ℕ

unfoldable mtr_system_contract : TokenBasic
unfolding to_lower_case
mtr_system_contract = record {
  token = mtr;
  address = to_lower_case (codes "0x687A6294D0D6d63e751A059bf1ca68E4AE7B13E2");
  name = codes "Meter ERC20";
  decimals = 18;
}

unfoldable mtrg_system_contract : TokenBasic
unfolding to_lower_case
mtrg_system_contract = record {
  token = mtrg;
  address = to_lower_case (codes "0x228ebBeE999c6a7ad74A6130E81b12f9Fe237Ba3");
  name = codes "Meter Governance ERC20";
  decimals = 18;
}

unfoldable mtrg_v2_system_contract : TokenBasic
unfolding to_lower_case
mtrg_v2_system_contract = record {
  token = mtrg_v2;
  address = to_lower_case (codes "0x5729cb3716a315d0bde3b5e489163bf8b9659436");
  name = codes "Meter Governance ERC20 V2";
  decimals = 18;
}

-- A `TokenRegistry`: what was added, the last first.
abbrev pub TokenRegistry : Type 0
TokenRegistry = List TokenBasic

abbrev pub is_token_kind : Token → Token → Bool
is_token_kind mtr mtr = true
is_token_kind mtrg mtrg = true
is_token_kind erc20 erc20 = true
is_token_kind erc721 erc721 = true
is_token_kind erc1155 erc1155 = true
is_token_kind mtrg_v2 mtrg_v2 = true
is_token_kind _ _ = false

unfoldable pub add : TokenBasic → TokenRegistry → TokenRegistry
add tb registry = tb ∷ registry

unfoldable pub registered : Token → TokenRegistry → Option TokenBasic
registered token [] = none
registered token (tb ∷ registry) =
    let rest = registered token registry in if is_token_kind tb.token token then some tb else rest

-- `knownTokens`
unfoldable known_tokens : Network → Option TokenRegistry
unfolding add mtr_system_contract mtrg_system_contract mtrg_v2_system_contract
known_tokens main_net =
    some (add mtrg_v2_system_contract (add mtrg_system_contract (add mtr_system_contract [])))
known_tokens test_net = some (
    add
      (record mtrg_system_contract { address = codes "0x8a419ef4941355476cf04933e90bf3bbf2f73814" })
      (add
        (record mtr_system_contract {
          address = codes "0x4cb6cef87d8cadf966b455e8bd58fff32aba49d1";
        })
        []))
known_tokens verse_main = none
known_tokens verse_test = some (
    add
      (record mtrg_system_contract {
        address = codes "0x000000000000004d65746572476f764552433230";
        name = codes "STPD";
      })
      (add
        (record mtr_system_contract {
          address = codes "0x000000000000000000004d657465724552433230";
          name = codes "STPT";
        })
        []))

unfoldable pub get_sys_contract_token : Network → Token → Option TokenBasic
unfolding known_tokens registered
get_sys_contract_token net token = elim (known_tokens net) [
  | none ↦ none
  | some registry ↦ registered token registry
]

module _ (P : TokenBasic → Type 0) where
  registered-All :
      (token : Token) (registry : TokenRegistry) (tb : TokenBasic)
      → All P registry
      → registered token registry ≡ some tb
      → P tb
  unfolding registered
  registered-All token [] tb all h = absurd cc
  registered-All token (t ∷ registry) tb all h = elim (Bool-cases (is_token_kind t.token token)) [
    | inl same ↦
        let first : some t ≡ some tb =
          sym (ap (λ b. if b then some t else registered token registry) same) ∙ h in
        let e : t ≡ tb = cc in rw (← e) all.0
    | inr other ↦
        registered-All token registry tb all.1
          (sym (ap (λ b. if b then some t else registered token registry) other) ∙ h)
  ]

abbrev IsLower : TokenBasic → Type 0
IsLower tb = to_lower_case tb.address ≡ tb.address

abbrev LowerIn : Option TokenRegistry → Type 0
LowerIn none = Unit
LowerIn (some registry) = All IsLower registry

known_tokens-LowerIn : (net : Network) → LowerIn (known_tokens net)
unfolding known_tokens add mtr_system_contract mtrg_system_contract mtrg_v2_system_contract
    to_lower_case
known_tokens-LowerIn main_net = (refl, (refl, (refl, tt)))
known_tokens-LowerIn test_net = (refl, (refl, tt))
known_tokens-LowerIn verse_main = tt
known_tokens-LowerIn verse_test = (refl, (refl, tt))

found-IsLower :
    (token : Token) (tb : TokenBasic) (o : Option TokenRegistry)
    → LowerIn o
    → (elim o [ none ↦ none | some registry ↦ registered token registry ]) ≡ some tb
    → IsLower tb
found-IsLower token tb none all h = absurd cc
found-IsLower token tb (some registry) all h = registered-All IsLower token registry tb all h

-- The address of a system contract is in lower case, as an event's is when it is compared with it.
pub get_sys_contract_token-IsLower :
    (net : Network) (token : Token) (tb : TokenBasic)
    → get_sys_contract_token net token ≡ some tb
    → to_lower_case tb.address ≡ tb.address
unfolding get_sys_contract_token
get_sys_contract_token-IsLower net token tb h =
    found-IsLower token tb (known_tokens net) (known_tokens-LowerIn net) h
