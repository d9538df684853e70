-- ===== src/Morning/Created.antt =====
-- The morning job creates a market for every strike of every ticker that it can read.
use bell_markets.Prelude.{
  ℕ, suc, ◌+◌, ◌*◌, ◌^◌, ◌<◌, ◌≡◌, ◌≢◌, subst, refl, ap, ◌∙◌, arith, true, false, List, [], ◌∷◌,
  Option, none, some, map, length, All, ◌⊎◌, inl, inr, ◌==◌, if_not-true,
}
use bell_markets.Prelude.Result.{ok, >>=-ok, map_result, ok_injective}
use bell_markets.Bytes.{Bytes}
use bell_markets.Grid.{Ticker, mag7, strike_rounding_usd, compute_strikes_for_stock}
use bell_markets.Grid.Strikes.{IsGrid, compute_strike_grid-IsGrid}
use bell_markets.Grid.Expanded.{compute_strikes_for_stock-eq_grid}
use bell_markets.Grid.Update.{scale_strike_to_i64}
use bell_markets.Grid.Sent.{round_ratio-one}
use bell_markets.Grid.Phases.{PriceRead}
use bell_markets.Morning.{
  SendCreateStrikeMarketInput, submitted, skipped, errored, MorningJobDeps, Sends, MorningTurn,
  plain_turn, strikes_of, add_send, status_of, send_input, send_strikes, close_turn, morning_turn,
  close_of, turn_of, run_morning_create_markets,
}

scale-positive :
    (strike expo : ℕ) → 0 < strike → scale_strike_to_i64 strike 1 expo ≡ ok (strike * 10 ^ expo)
unfolding scale_strike_to_i64
scale-positive strike expo positive =
    let nonzero : (strike == 0) ≡ false = ground arith in
    rw (nonzero, round_ratio-one (strike * 10 ^ expo)) refl

abbrev with_signature : Option Bytes → List Bytes → List Bytes
with_signature none tx_sigs = tx_sigs
with_signature (some tx_sig) tx_sigs = tx_sig ∷ tx_sigs

abbrev with_refusal : Option Bytes → ℕ → List ℕ → List ℕ
with_refusal none strike errors = strike ∷ errors
with_refusal (some tx_sig) strike errors = errors

-- The signatures that the inputs are answered with, and the strikes of those that are refused.
abbrev pub signatures :
    (SendCreateStrikeMarketInput → Option Bytes) → List SendCreateStrikeMarketInput → List Bytes
signatures send [] = []
signatures send (input ∷ inputs) = with_signature (send input) (signatures send inputs)

abbrev pub refusals :
    (SendCreateStrikeMarketInput → Option Bytes) → List SendCreateStrikeMarketInput → List ℕ
refusals send [] = []
refusals send (input ∷ inputs) = with_refusal (send input) input.strike_usd (refusals send inputs)

module _ (deps : MorningJobDeps) where
  -- One transaction for each strike, in order, at the scale of the feed; the signatures and the
  -- errors are those that the sending of these transactions answers.
  pub record IsSent (ticker : Ticker) (phoenix account : Bytes) (expo : ℕ) (strikes : List ℕ)
      (sends : Sends) : Type 0 where
    pub sent :
        sends.sent
        ≡ map (λ strike. send_input deps ticker phoenix account strike (strike * 10 ^ expo)) strikes
    pub answered : sends.tx_sigs ≡ signatures deps.send sends.sent
    pub refused : sends.errors ≡ refusals deps.send sends.sent
    pub accounted : length sends.tx_sigs + length sends.errors ≡ length strikes

  add_send-accounted :
      (input : SendCreateStrikeMarketInput) (answer : Option Bytes) (later : Sends) (n : ℕ)
      → length later.tx_sigs + length later.errors ≡ n
      → length (add_send input answer later).tx_sigs + length (add_send input answer later).errors
        ≡ suc n
  add_send-accounted input none later n e = omega arith
  add_send-accounted input (some tx_sig) later n e = omega arith

  add_send-sent :
      (input : SendCreateStrikeMarketInput) (answer : Option Bytes) (later : Sends)
      → (add_send input answer later).sent ≡ input ∷ later.sent
  add_send-sent input none later = refl
  add_send-sent input (some tx_sig) later = refl

  add_send-signatures :
      (input : SendCreateStrikeMarketInput) (answer : Option Bytes) (later : Sends)
      → deps.send input ≡ answer
      → later.tx_sigs ≡ signatures deps.send later.sent
      → (add_send input answer later).tx_sigs
        ≡ signatures deps.send (add_send input answer later).sent
  add_send-signatures input none later is e = rw is e
  add_send-signatures input (some tx_sig) later is e = rw is (ap (◌∷◌ tx_sig) e)

  add_send-refusals :
      (input : SendCreateStrikeMarketInput) (answer : Option Bytes) (later : Sends)
      → deps.send input ≡ answer
      → later.errors ≡ refusals deps.send later.sent
      → (add_send input answer later).errors ≡ refusals deps.send (add_send input answer later).sent
  add_send-refusals input none later is e = rw is (ap (◌∷◌ input.strike_usd) e)
  add_send-refusals input (some tx_sig) later is e = rw is e

  send_strikes-IsSent :
      (ticker : Ticker) (phoenix account : Bytes) (expo : ℕ) (strikes : List ℕ)
      → All (λ strike. 0 < strike) strikes
      → (sends : Sends) × (send_strikes deps ticker phoenix account expo strikes ≡ ok sends)
        × IsSent ticker phoenix account expo strikes sends
  unfolding send_strikes
  send_strikes-IsSent ticker phoenix account expo [] _ =
      (_, refl, record { sent = refl; answered = refl; refused = refl; accounted = omega arith })
  send_strikes-IsSent ticker phoenix account expo (strike ∷ strikes) (positive, rest) =
      let (later, runs, is) = send_strikes-IsSent ticker phoenix account expo strikes rest in
      let input = send_input deps ticker phoenix account strike (strike * 10 ^ expo) in
      (
        add_send input (deps.send input) later,
        rw (scale-positive strike expo positive, runs) refl,
        record {
          sent = add_send-sent input (deps.send input) later ∙ ap (◌∷◌ input) is.sent;
          answered = add_send-signatures input (deps.send input) later refl is.answered;
          refused = add_send-refusals input (deps.send input) later refl is.refused;
          accounted =
              add_send-accounted input (deps.send input) later (length strikes) is.accounted;
        },
      )

status_of-cases :
    (errors : List ℕ)
    → (errors ≡ []) × (status_of errors ≡ submitted) ⊎ (errors ≢ []) × (status_of errors ≡ errored)
status_of-cases [] = inl (refl, refl)
status_of-cases (strike ∷ errors) = inr ((λ e. cc), refl)

abbrev created_turn : Ticker → PriceRead → List ℕ → Sends → MorningTurn
created_turn ticker read strikes sends = record {
  outcome = record {
    ticker = ticker;
    status = status_of sends.errors;
    previous_close = some read.price;
    strikes = strikes;
    tx_sigs = sends.tx_sigs;
    errors = sends.errors;
  };
  sent = sends.sent;
}

-- What a turn of the morning job is.
pub data IsMorningTurn (deps : MorningJobDeps) : Ticker → MorningTurn → Type 0 where
  skips :
      (ticker : Ticker)
      → (deps.phoenix_market ticker ≡ none) ⊎ (deps.pyth_price_account ticker ≡ none)
      → IsMorningTurn deps ticker (plain_turn ticker skipped)
  fails :
      (ticker : Ticker)
      → close_of deps ticker (deps.hermes_feed_id ticker) ≡ none
      → IsMorningTurn deps ticker (plain_turn ticker errored)
  -- The computed strikes are sent, and the outcome is made of the answers.
  creates :
      (ticker : Ticker) (phoenix account : Bytes) (read : PriceRead) (strikes : List ℕ)
      (sends : Sends) (turn : MorningTurn)
      → deps.phoenix_market ticker ≡ some phoenix
      → deps.pyth_price_account ticker ≡ some account
      → close_of deps ticker (deps.hermes_feed_id ticker) ≡ some read
      → compute_strikes_for_stock deps.unit read.price ≡ ok strikes
      → IsGrid deps.unit read.price strike_rounding_usd strikes
      → IsSent deps ticker phoenix account read.expo strikes sends
      → turn.sent ≡ sends.sent
      → turn.outcome.ticker ≡ ticker
      → turn.outcome.previous_close ≡ some read.price
      → turn.outcome.strikes ≡ strikes
      → turn.outcome.tx_sigs ≡ sends.tx_sigs
      → turn.outcome.errors ≡ sends.errors
      → (turn.outcome.errors ≡ []) × (turn.outcome.status ≡ submitted)
        ⊎ (turn.outcome.errors ≢ []) × (turn.outcome.status ≡ errored)
      → IsMorningTurn deps ticker turn

-- One turn for each ticker, in order.
abbrev pub AreMorningTurns : MorningJobDeps → List Ticker → List MorningTurn → Type 0
AreMorningTurns deps [] [] = Unit
AreMorningTurns deps [] (turn ∷ turns) = ⊥
AreMorningTurns deps (ticker ∷ tickers) [] = ⊥
AreMorningTurns deps (ticker ∷ tickers) (turn ∷ turns) =
    IsMorningTurn deps ticker turn × AreMorningTurns deps tickers turns

module _ (deps : MorningJobDeps) (units : 0 < deps.unit)
    (prices : (ticker : Ticker) (read : PriceRead)
      → close_of deps ticker (deps.hermes_feed_id ticker) ≡ some read
      → 0 < read.price) where
  morning_turn-IsMorningTurn :
      (ticker : Ticker) (phoenix account feed : Option Bytes) (close : Option PriceRead)
      → deps.phoenix_market ticker ≡ phoenix
      → deps.pyth_price_account ticker ≡ account
      → deps.hermes_feed_id ticker ≡ feed
      → close_of deps ticker (deps.hermes_feed_id ticker) ≡ close
      → (turn : MorningTurn) × (morning_turn deps ticker phoenix account feed close ≡ ok turn)
        × IsMorningTurn deps ticker turn
  unfolding morning_turn close_turn
  morning_turn-IsMorningTurn ticker none account feed close m a f c =
      (_, refl, skips ticker (inl m))
  morning_turn-IsMorningTurn ticker (some phoenix) none feed close m a f c =
      (_, refl, skips ticker (inr a))
  morning_turn-IsMorningTurn ticker (some phoenix) (some account) none close m a f c =
      (_, refl, fails ticker (rw f refl))
  morning_turn-IsMorningTurn ticker (some phoenix) (some account) (some feed) none m a f c =
      (_, refl, fails ticker c)
  morning_turn-IsMorningTurn ticker (some phoenix) (some account) (some feed) (some read) m a f c =
      let (strikes, same, returns) =
        compute_strikes_for_stock-eq_grid deps.unit read.price units (prices ticker read c) in
      let (grid, listed, is) =
        compute_strike_grid-IsGrid deps.unit read.price strike_rounding_usd units
          (prices ticker read c) (omega arith) in
      let is_grid =
        subst (IsGrid deps.unit read.price strike_rounding_usd) (ok_injective _ returns listed)
          is in
      let (sends, sent, is_sent) =
        send_strikes-IsSent deps ticker phoenix account read.expo strikes is_grid.positive in
      (
        created_turn ticker read strikes sends,
        >>=-ok (strikes_of (compute_strikes_for_stock deps.unit read.price)) _ (ap strikes_of same)
            ∙ >>=-ok (send_strikes deps ticker phoenix account read.expo strikes) _ sent,
        creates ticker phoenix account read strikes sends (created_turn ticker read strikes sends) m
            a c same is_grid is_sent refl refl refl refl refl refl (status_of-cases sends.errors),
      )

  turns-AreMorningTurns :
      (tickers : List Ticker)
      → (turns : List MorningTurn) × (map_result (turn_of deps) tickers ≡ ok turns)
        × AreMorningTurns deps tickers turns
  unfolding map_result
  turns-AreMorningTurns [] = ([], refl, tt)
  turns-AreMorningTurns (ticker ∷ tickers) =
      let (turn, first, is) =
        morning_turn-IsMorningTurn ticker (deps.phoenix_market ticker)
          (deps.pyth_price_account ticker) (deps.hermes_feed_id ticker)
          (close_of deps ticker (deps.hermes_feed_id ticker)) refl refl refl refl in
      let (turns, rest, are) = turns-AreMorningTurns tickers in
      (turn ∷ turns, rw (first, rest) refl, (is, are))

-- With a program configured, clients that start and closes above 0, the morning job returns, with
-- one turn for each of the seven tickers in order. A ticker with a market, an account and a close
-- has one transaction sent for each strike that is computed for its close, in order, at the strike
-- times the power of ten of the feed; these strikes are a grid around the close with a tick of $10.
-- Its outcome has the signatures and the refused strikes that the sending answers, together as many
-- as the strikes, and is submitted exactly if none was refused. Any other ticker is skipped or
-- errored, and nothing is sent for it.
pub run_morning_create_markets-returns :
    (deps : MorningJobDeps)
    → deps.program_id_set ≡ true
    → deps.clients ≡ ok tt
    → 0 < deps.unit
    → ((ticker : Ticker) (read : PriceRead)
        → close_of deps ticker (deps.hermes_feed_id ticker) ≡ some read
        → 0 < read.price)
    → (turns : List MorningTurn) × (run_morning_create_markets deps ≡ ok turns)
      × AreMorningTurns deps mag7 turns
unfolding run_morning_create_markets
run_morning_create_markets-returns deps configured starts units prices =
    let (turns, run, are) = turns-AreMorningTurns deps units prices mag7 in
    (
      turns,
      if_not-true deps.program_id_set _ _ configured ∙ >>=-ok deps.clients _ starts ∙ run,
      are,
    )
