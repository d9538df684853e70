-- ===== src/Grid/Update.antt =====
-- `defaultUpdateTickerConfigTx` of services/automation/src/grid-evolution.ts and `scaleStrikeToI64` of
-- services/automation/src/jobs/morning.ts: the instruction that writes a ticker's grid. The client of
-- the program is a parameter. An exponent is that of the price feed with its sign turned, which is
-- never below 0 there.
use bell_markets.Prelude.{
  ℕ, ◌-◌, ◌*◌, ◌^◌, Bool, not, List, [], ◌∷◌, ◌++◌, Option, length, replicate, ltb, ◌==◌,
}
use bell_markets.Prelude.Result.{Result, ok, throw, ◌>>=◌, ◌>>◌, throw_if, map_result}
use bell_markets.Bytes.{Bytes}
use bell_markets.Grid.{Ticker, PhaseLabel, round_ratio}

-- `UpdateTickerConfigInput`
pub record UpdateTickerConfigInput : Type 0 where
  pub ticker : Ticker
  pub cap_center : ℕ
  pub allowed_strikes : List ℕ
  pub deviation_cap_bps : ℕ
  pub tick_size_usd : ℕ
  pub threshold_bps : ℕ
  pub phase : PhaseLabel
  pub pyth_price_account : Bytes
  pub expiry_unix : Option ℕ
  pub expo : ℕ

pub data UpdateError : Type 0 where
  program_unavailable idl_missing no_strikes invalid_strike rpc_failed : UpdateError
  too_many_strikes : ℕ → UpdateError

-- `UpdateTickerConfigResult`
pub data UpdateTickerConfigResult : Type 0 where
  sent_as : Bytes → UpdateTickerConfigResult
  not_sent : UpdateError → UpdateTickerConfigResult

-- The arguments and accounts of the instruction `update_ticker_config`.
pub record UpdateTickerConfigCall : Type 0 where
  pub cap_center : ℕ
  pub allowed_strikes : List ℕ
  pub strike_count : ℕ
  pub max_user_strike_deviation_bps : ℕ
  pub strike_tick_size : ℕ
  pub threshold_bps : ℕ
  pub admin : Bytes
  pub config : Bytes
  pub pyth_feed : Bytes
  pub ticker_config : Bytes
  pub system_program : Bytes

-- The client and its provider: `program` says whether the program that `getProgram` returns has the
-- method, and `rpc` sends a call and returns its signature.
pub record BellMarketsAnchorClient : Type 0 where
  pub program : Result UpdateError Bool
  pub program_id : Bytes
  pub admin : Bytes
  pub system_program : Bytes
  pub find_program_address : List Bytes → Bytes → Bytes
  pub rpc : UpdateTickerConfigCall → Result UpdateError Bytes

-- `MAX_ALLOWED_STRIKES`
abbrev pub max_allowed_strikes : ℕ
max_allowed_strikes = 16

-- `scaleStrikeToI64(n / d, -expo)`
unfoldable pub scale_strike_to_i64 : ℕ → ℕ → ℕ → Result UpdateError ℕ
scale_strike_to_i64 n d expo = do
  throw_if (n == 0) invalid_strike
  ok (round_ratio (n * 10 ^ expo) d)

-- The PDA of the seed `config`.
abbrev pub config_pda : BellMarketsAnchorClient → Bytes
config_pda client =
    client.find_program_address ((99 ∷ 111 ∷ 110 ∷ 102 ∷ 105 ∷ 103 ∷ []) ∷ []) client.program_id

-- The PDA of the seeds `ticker` and the feed.
abbrev pub ticker_config_pda : BellMarketsAnchorClient → Bytes → Bytes
ticker_config_pda client pyth_feed =
    client.find_program_address ((116 ∷ 105 ∷ 99 ∷ 107 ∷ 101 ∷ 114 ∷ []) ∷ pyth_feed ∷ [])
      client.program_id

-- `padded`
abbrev pub pad_strikes : List ℕ → List ℕ
pad_strikes strikes = strikes ++ replicate (max_allowed_strikes - length strikes) 0

unfoldable pub update_ticker_config :
    ℕ → BellMarketsAnchorClient → UpdateTickerConfigInput → Result UpdateError Bytes
update_ticker_config unit client input = do
  has_method ← client.program
  throw_if (not has_method) idl_missing
  cap_center ← scale_strike_to_i64 input.cap_center unit input.expo
  strikes ← map_result (λ s. scale_strike_to_i64 s 1 input.expo) input.allowed_strikes
  throw_if (length strikes == 0) no_strikes
  throw_if (ltb max_allowed_strikes (length strikes)) (too_many_strikes (length strikes))
  tick_size ← scale_strike_to_i64 input.tick_size_usd 1 input.expo
  client.rpc (record {
    cap_center = cap_center;
    allowed_strikes = pad_strikes strikes;
    strike_count = length strikes;
    max_user_strike_deviation_bps = input.deviation_cap_bps;
    strike_tick_size = tick_size;
    threshold_bps = input.threshold_bps;
    admin = client.admin;
    config = config_pda client;
    pyth_feed = input.pyth_price_account;
    ticker_config = ticker_config_pda client input.pyth_price_account;
    system_program = client.system_program;
  })

-- `catch (err) { return { ok: false, error } }`
abbrev pub caught : Result UpdateError Bytes → UpdateTickerConfigResult
caught (ok tx_sig) = sent_as tx_sig
caught (throw e) = not_sent e

-- `defaultUpdateTickerConfigTx`
unfoldable pub default_update_ticker_config_tx :
    ℕ → BellMarketsAnchorClient → UpdateTickerConfigInput → UpdateTickerConfigResult
default_update_ticker_config_tx unit client input = caught (update_ticker_config unit client input)
