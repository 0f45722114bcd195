-- ===== src/Const/Config.antt =====
-- src/const/index.ts: NetworkConfig and GetNetworkConfig, the settings of each network. A property
-- that a network leaves out is `none`.
use scan_service.Prelude.{ℕ, [], Bool, true, false, Option, none, some}
use scan_service.Prelude.Text.{Text, codes}
use scan_service.Env.Model.{Network, main_net, test_net, verse_main, verse_test}

pub record NetworkConfig : Type 0 where
  pub pow_user : Option Text
  pub pow_pass : Option Text
  pub pow_host : Option Text
  pub pow_port : Option ℕ
  pub pos_url : Text
  pub rpc_url : Text
  pub wmtr_enabled : Bool
  pub wmtr_address : Text
  pub st_mtrg_rebase_enabled : Bool
  pub st_mtrg_address : Text
  pub st_mtrg_mtrg_pair : Text
  pub pow_enabled : Bool
  pub auction_enabled : Bool
  pub sourcify_enabled : Bool
  pub cmc_energy : Text
  pub cmc_balance : Text
  pub coingecko_energy : Text
  pub coingecko_balance : Text
  pub energy_sym : Text
  pub balance_sym : Text
  pub chain_id : ℕ

unfoldable pub get_network_config : Network → NetworkConfig
get_network_config main_net = record {
  pow_user = some (codes "testuser");
  pow_pass = some (codes "testpass");
  pow_host = some (codes "152.53.152.217");
  pow_port = some 8332;
  pos_url = codes "https://mainnet.meter.io";
  rpc_url = codes "http://rpc.meter.io";
  wmtr_enabled = true;
  wmtr_address = codes "0x160361ce13ec33c993b5cca8f62b6864943eb083";
  st_mtrg_rebase_enabled = true;
  st_mtrg_address = codes "0x215d603293357ca222bE92A1bf75eEc38DeF0aad";
  st_mtrg_mtrg_pair = codes "0x6bff2fd2554ad25e662dd6d7c902115e6b76f046";
  pow_enabled = true;
  auction_enabled = true;
  sourcify_enabled = true;
  cmc_energy = codes "meter-stable";
  cmc_balance = codes "meter-governance";
  coingecko_energy = codes "meter-stable";
  coingecko_balance = codes "meter";
  energy_sym = codes "MTR";
  balance_sym = codes "MTRG";
  chain_id = 82;
}
get_network_config test_net = record {
  pow_user = some (codes "testuser");
  pow_pass = some (codes "testpass");
  pow_host = some (codes "t3.meter.io");
  pow_port = some 8332;
  pos_url = codes "https://testnet.meter.io";
  rpc_url = codes "https://rpctest.meter.io";
  wmtr_enabled = false;
  wmtr_address = [];
  st_mtrg_rebase_enabled = false;
  st_mtrg_address = [];
  st_mtrg_mtrg_pair = [];
  pow_enabled = false;
  auction_enabled = true;
  sourcify_enabled = true;
  cmc_energy = codes "meter-stable";
  cmc_balance = codes "meter-governance";
  coingecko_energy = codes "meter-stable";
  coingecko_balance = codes "meter";
  energy_sym = codes "MTR";
  balance_sym = codes "MTRG";
  chain_id = 83;
}
get_network_config verse_main = record {
  pow_user = none;
  pow_pass = none;
  pow_host = none;
  pow_port = none;
  pos_url = [];
  rpc_url = codes "https://test-rpc0.stp.network";
  wmtr_enabled = false;
  wmtr_address = [];
  st_mtrg_rebase_enabled = false;
  st_mtrg_address = [];
  st_mtrg_mtrg_pair = [];
  pow_enabled = false;
  auction_enabled = false;
  sourcify_enabled = false;
  cmc_energy = codes "standard-tokenization-protocol";
  cmc_balance = [];
  coingecko_energy = codes "stp-network";
  coingecko_balance = [];
  energy_sym = codes "STPT";
  balance_sym = codes "STPD";
  chain_id = 36;
}
get_network_config verse_test = record {
  pow_user = none;
  pow_pass = none;
  pow_host = none;
  pow_port = none;
  pos_url = [];
  rpc_url = codes "https://test-rpc0.stp.network";
  wmtr_enabled = false;
  wmtr_address = [];
  st_mtrg_rebase_enabled = false;
  st_mtrg_address = [];
  st_mtrg_mtrg_pair = [];
  pow_enabled = false;
  auction_enabled = false;
  sourcify_enabled = false;
  cmc_energy = codes "standard-tokenization-protocol";
  cmc_balance = [];
  coingecko_energy = codes "stp-network";
  coingecko_balance = [];
  energy_sym = codes "STPT";
  balance_sym = codes "STPD";
  chain_id = 72;
}
