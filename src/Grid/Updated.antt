-- ===== src/Grid/Updated.antt =====
-- What a turn that sends an update sends, and what it records of the answer.
use bell_markets.Prelude.{ℕ, ◌≡◌, refl, List, Option, some}
use bell_markets.Bytes.{Bytes}
use bell_markets.Grid.{Ticker, PhaseLabel, ticker_defaults}
use bell_markets.Grid.Update.{UpdateTickerConfigInput}
use bell_markets.Grid.Phases.{GridPhaseDeps, Turn, updated_turn, update_input, status_of, tx_sig_of}

-- The update of a ticker: its centre, strikes, phase, account, expiry and scale are the given ones,
-- its limits those of the ticker; the turn records the centre, the strikes and the answer.
pub record IsUpdate (deps : GridPhaseDeps) (ticker : Ticker) (center : ℕ) (strikes : List ℕ)
    (phase : PhaseLabel) (account : Bytes) (expiry : Option ℕ) (expo : ℕ) (turn : Turn)
    : Type 0 where
  pub input : UpdateTickerConfigInput
  pub sent : turn.sent ≡ some input
  pub ticker_is : input.ticker ≡ ticker
  pub centred : input.cap_center ≡ center
  pub allowed : input.allowed_strikes ≡ strikes
  pub capped : input.deviation_cap_bps ≡ (ticker_defaults ticker).default_deviation_cap_bps
  pub tick : input.tick_size_usd ≡ (ticker_defaults ticker).strike_tick_size_usd
  pub threshold : input.threshold_bps ≡ (ticker_defaults ticker).wild_swing_threshold_bps
  pub labelled : input.phase ≡ phase
  pub account_is : input.pyth_price_account ≡ account
  pub expires : input.expiry_unix ≡ expiry
  pub scaled : input.expo ≡ expo
  pub named : turn.outcome.ticker ≡ ticker
  pub status_is : turn.outcome.status ≡ status_of (deps.update_fn input)
  pub signed : turn.outcome.tx_sig ≡ tx_sig_of (deps.update_fn input)
  pub centre_kept : turn.outcome.cap_center ≡ some center
  pub strikes_kept : turn.outcome.allowed_strikes ≡ some strikes

pub updated_turn-IsUpdate :
    (deps : GridPhaseDeps) (ticker : Ticker) (center : ℕ) (strikes : List ℕ) (phase : PhaseLabel)
    (account : Bytes) (expiry : Option ℕ) (expo : ℕ) (drift : Option ℕ)
    → IsUpdate deps ticker center strikes phase account expiry expo
        (updated_turn deps (update_input ticker center strikes phase account expiry expo) drift)
updated_turn-IsUpdate deps ticker center strikes phase account expiry expo drift = record {
  input = update_input ticker center strikes phase account expiry expo;
  sent = refl;
  ticker_is = refl;
  centred = refl;
  allowed = refl;
  capped = refl;
  tick = refl;
  threshold = refl;
  labelled = refl;
  account_is = refl;
  expires = refl;
  scaled = refl;
  named = refl;
  status_is = refl;
  signed = refl;
  centre_kept = refl;
  strikes_kept = refl;
}
