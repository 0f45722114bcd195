-- ===== src/Const.antt =====
-- src/const: the addresses and the account names that the caches use.
pub mod Names
pub mod Config
pub mod Tokens
unfoldable pub use Names.{get_account_name}
use scan_service.Prelude.{String}
use scan_service.Prelude.Text.{Text, codes}

unfoldable pub zero_address : Text
zero_address = codes "0x0000000000000000000000000000000000000000"
