-- ===== src/Aml/Coverage.antt =====
-- shkeeper/services/aml_coverage.py: which assets a provider checks. The table of a provider is a
-- function here, and the provider of the configuration is an argument.
use shkeeper_io.Prelude.{
  Bool, true, false, String, Option, none, some, List, [], ◌∷◌, any, str_eq, if◌then◌else◌,
}
use shkeeper_io.Prelude.Text.{upper}

pub data Support : Type 0 where
  provider_supported unsupported : Support

-- an entry of a coverage table
pub record Coverage : Type 0 where
  pub status : Support
  pub provider : String
  pub asset : Option String
  pub network : Option String
  pub reason : Option String

pub supported : String → String → String → Coverage
supported provider asset network = record {
  status = provider_supported;
  provider = provider;
  asset = some asset;
  network = some network;
  reason = none;
}

pub unsupported_as : String → String → Coverage
unsupported_as provider reason = record {
  status = unsupported;
  provider = provider;
  asset = none;
  network = none;
  reason = some reason;
}

-- the symbols whose entries `_coverage` overwrites at its end
abbrev limited : List String
limited = "FIRO-SPARK" ∷ "MONERO" ∷ "XMR" ∷ "BTC-LIGHTNING" ∷ []

abbrev known_symbols : List String
known_symbols =
    "BTC" ∷ "LTC" ∷ "DOGE" ∷ "ETH" ∷ "ETH-USDT" ∷ "ETH-USDC" ∷ "ETH-PYUSD" ∷ "TRX" ∷ "USDT" ∷ "USDC"
    ∷ "SOL" ∷ "SOLANA-USDT" ∷ "SOLANA-USDC" ∷ "SOLANA-PYUSD" ∷ "BNB" ∷ "BNB-USDT" ∷ "BNB-USDC"
    ∷ "MATIC" ∷ "POLYGON-USDT" ∷ "POLYGON-USDC" ∷ "AVAX" ∷ "AVALANCHE-USDT" ∷ "AVALANCHE-USDC"
    ∷ "XRP" ∷ "ARBETH" ∷ "ARB-USDC" ∷ "ARB-PYUSD" ∷ "ARB-TOKEN" ∷ "OPETH" ∷ "OP-USDT" ∷ "OP-USDC"
    ∷ "OP-TOKEN" ∷ "TON" ∷ "TON-USDT" ∷ "FIRO" ∷ "FIRO-SPARK" ∷ "MONERO" ∷ "XMR" ∷ "BTC-LIGHTNING"
    ∷ []

-- a symbol, the provider's asset and its network
abbrev Entries : Type 0
Entries = List (String × String × String)

abbrev koinkyt_entries : Entries
koinkyt_entries =
    ("BTC", "BTC", "BTC")
    ∷ ("ETH", "ETH", "ETHEREUM")
    ∷ ("ETH-USDT", "USDT", "ETHEREUM")
    ∷ ("ETH-USDC", "USDC", "ETHEREUM")
    ∷ ("TRX", "TRX", "TRON")
    ∷ ("USDT", "USDT", "TRON")
    ∷ ("USDC", "USDC", "TRON")
    ∷ []

abbrev amlbot_entries : Entries
amlbot_entries =
    ("BTC", "BTC", "BTC")
    ∷ ("LTC", "LTC", "LTC")
    ∷ ("DOGE", "DOGE", "DOGE")
    ∷ ("ETH", "ETH", "ETHEREUM")
    ∷ ("ETH-USDT", "USDT", "ETHEREUM")
    ∷ ("ETH-USDC", "USDC", "ETHEREUM")
    ∷ ("ETH-PYUSD", "PYUSD", "ETHEREUM")
    ∷ ("TRX", "TRX", "TRON")
    ∷ ("USDT", "USDT", "TRON")
    ∷ ("USDC", "USDC", "TRON")
    ∷ ("SOL", "SOL", "SOLANA")
    ∷ ("SOLANA-USDT", "USDT", "SOLANA")
    ∷ ("SOLANA-USDC", "USDC", "SOLANA")
    ∷ ("SOLANA-PYUSD", "PYUSD", "SOLANA")
    ∷ []

entry_of : String → String → Entries → Option Coverage
unfolding supported
entry_of provider symbol [] = none
entry_of provider symbol ((key, asset, network) ∷ rest) =
    let more = entry_of provider symbol rest in
    if str_eq key symbol then some (supported provider asset network) else more

-- `_coverage(provider, supported).get(symbol)`
unfoldable pub coverage : String → Entries → String → Option Coverage
unfolding entry_of unsupported_as
coverage provider entries symbol =
    if any (str_eq symbol) limited
    then some (unsupported_as provider "limited_analysis_requires_review")
    else elim (entry_of provider symbol entries) [
      | some entry ↦ some entry
      | none ↦
          if any (str_eq symbol) known_symbols
          then some (unsupported_as provider "unsupported_asset")
          else none
    ]

-- `AML_COVERAGE_BY_PROVIDER.get(provider, KOINKYT_COVERAGE)`
coverage_by_provider : String → String → Option Coverage
unfolding coverage
coverage_by_provider provider symbol =
    if str_eq provider "amlbot"
    then coverage "amlbot" amlbot_entries symbol
    else coverage "koinkyt" koinkyt_entries symbol

or_unsupported : String → Option Coverage → Coverage
unfolding unsupported_as
or_unsupported provider none = unsupported_as provider "unsupported_asset"
or_unsupported provider (some entry) = entry

unfoldable pub get_coverage_policy : String → String → Coverage
unfolding coverage_by_provider or_unsupported upper
get_coverage_policy provider crypto_symbol =
    or_unsupported provider (coverage_by_provider provider (upper crypto_symbol))

abbrev pub is_supported : Coverage → Bool
is_supported c = elim (c.status) [ provider_supported ↦ true | unsupported ↦ false ]
