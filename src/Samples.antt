-- ===== src/Samples.antt =====
-- Concrete values of what the program takes from outside, on which tests and examples run.
use scan_service.Prelude.{
  ℕ, String, ◌≡◌, refl, Bool, true, false, Option, none, some, [], ◌∷◌, if◌then◌else◌,
}
use scan_service.Prelude.Int.{ℤ, pos, negsuc, ◌+ℤ◌, ◌-ℤ◌, ltb_ℤ, leb_ℤ, beq_ℤ}
use scan_service.Prelude.Text.{Text, codes, same_text}
use scan_service.Env.{Env}
use scan_service.Env.Decoding.{Abi}
use scan_service.Env.Numeric.{BigNumbers, lift₂, test₂}
use scan_service.Env.Mongo.{Collection, same_pair, same_triple}
use scan_service.Env.Model.{Account, TokenBalance, Contract, Metric, Nft, BlockConcise}

-- Integers with a NaN; a number is printed as its sign and its size.
abbrev pub print : Option ℤ → Text
print none = []
print (some (pos n)) = n ∷ []
print (some (negsuc n)) = 45 ∷ n ∷ []

pub print_injective : (a b : Option ℤ) → print a ≡ print b → a ≡ b
print_injective none none h = refl
print_injective none (some (pos n)) h = cc
print_injective none (some (negsuc n)) h = cc
print_injective (some (pos m)) none h = cc
print_injective (some (negsuc m)) none h = cc
print_injective (some (pos m)) (some (pos n)) h = cc
print_injective (some (pos m)) (some (negsuc n)) h = cc
print_injective (some (negsuc m)) (some (pos n)) h = cc
print_injective (some (negsuc m)) (some (negsuc n)) h = cc

abbrev pub whole_numbers : BigNumbers
whole_numbers = record {
  BigNumber = Option ℤ;
  value = λ a. a;
  big_zero = some (pos 0);
  plus = lift₂ ◌+ℤ◌;
  minus = lift₂ ◌-ℤ◌;
  is_less_than = test₂ ltb_ℤ;
  is_less_than_or_equal_to = test₂ leb_ℤ;
  is_equal_to = test₂ beq_ℤ;
  is_nan = λ a. elim a [ none ↦ true | some _ ↦ false ];
  to_fixed = print;
  value-big_zero = refl;
  value-plus = λ a b. refl;
  value-minus = λ a b. refl;
  is_less_than_lem = λ a b. refl;
  is_less_than_or_equal_to_lem = λ a b. refl;
  is_equal_to_lem = λ a b. refl;
  is_nan_lem = λ a. refl;
  to_fixed_injective = print_injective;
}

-- A collection as the function from keys to documents.
abbrev pub table : (K : Type 0) (same : K → K → Bool) (Doc : Type 0) → Collection K same Doc
table K same Doc = record {
  Store = K → Option Doc;
  find_one = λ k s. s k;
  save = λ k x s j. if same k j then some x else s j;
  delete_one = λ k s j. if same k j then none else s j;
  find_one-save = λ k j x s. refl;
  find_one-delete_one = λ k j s. refl;
}

abbrev pub amount : ℕ → Option ℤ
amount n = some (pos n)

-- An event that always decodes to the same.
abbrev event : {A : Type 0} → String → A → Abi A
event signature x = record { signature = codes signature; decode = λ ev. some x }

-- A node that reports the same amounts of every account, at every block.
instance abbrev pub sample : Env
sample = record {
  numbers = whole_numbers;
  read_number = λ a. amount 4;
  accounts = table Text same_text (Account (Option ℤ));
  token_balances = table (Text × Text) same_pair (TokenBalance (Option ℤ));
  contracts = table Text same_text (Contract (Option ℤ));
  metrics = table Text same_text Metric;
  nfts = table (Text × Text × Text) same_triple Nft;
  nft_exists = λ address token_id db. false;
  count_erc20 = λ addr balances contracts. amount 3;
  count_erc20_txs = λ addr. amount 8;
  get_account = λ addr n. some (record {
    balance = amount 70;
    energy = amount 50;
    bound_balance = amount 20;
    bound_energy = amount 0;
  });
  get_erc20_balance_of = λ addr token n. amount 9;
  devkit = record {
    master_signature = codes "0xaa";
    new_master = λ ev. some ev.payload;
    decode_address = λ a. some a;
    is_script_engine_data = λ a. false;
    erc20_transfer = codes "0xdd";
    decode_erc20 = λ ev. some (codes "0xAA", codes "0xBB", amount 4);
    erc721_transfer = codes "0xdd";
    decode_erc721 = λ ev. some (codes "0xAA", codes "0xBB", amount 4);
    erc1155_single = codes "0xc3";
    decode_single = λ ev. some (codes "0xAA", codes "0xBB", codes "1", pos 1);
    erc1155_batch = codes "0x4a";
    decode_batch = λ ev. some (codes "0xAA", codes "0xBB", codes "1" ∷ [], pos 1 ∷ []);
    decode_action = λ a. some (codes "bound");
    wmtr_deposit = event "0xd0" (codes "0xAA", amount 4);
    wmtr_withdrawal = event "0xd1" (codes "0xAA", amount 1);
    bound_event = event "0xb0" (codes "0xAA", 1, amount 4);
    unbound_event = event "0xb1" (codes "0xAA", 1, amount 4);
    bucket_open = event "0xe0" (codes "b1");
    bucket_close = event "0xe1" (codes "b1");
    bucket_deposit = event "0xe2" (codes "b1");
    bucket_withdraw = event "0xe3" (record {
      from_bucket = codes "b1";
      to_bucket = codes "b2";
      owner = codes "0xAA";
      recipient = codes "0xBB";
      token = 1;
      amount = amount 4;
    });
    bucket_merge = event "0xe4" (codes "b1", codes "b2");
    bucket_transfer_fund = event "0xe5" (codes "b1", codes "b2");
    bucket_update_candidate = event "0xe6" (codes "b1");
    upgraded = event "0xf0" (codes "0xCC");
    beacon_upgraded = event "0xf1" (codes "0xCC");
    admin_changed = event "0xf2" (codes "0xCC");
    revert_reason_selector = codes "0x08c379a0";
    panic_error_selector = codes "0x4e487b71";
    decode_string = λ a. some (codes "why");
    decode_uint256 = λ a. some (codes "17");
  };
  trace_clause = λ tx_id i. none;
}

abbrev pub block_1 : BlockConcise
block_1 = record { hash = codes "0x01"; number = 1; timestamp = 100 }

abbrev pub block_2 : BlockConcise
block_2 = record { hash = codes "0x02"; number = 2; timestamp = 110 }
