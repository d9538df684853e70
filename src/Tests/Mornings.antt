-- ===== src/Tests/Mornings.antt =====
-- A morning on which every ticker closed at $437 and one strike of each is refused.
use bell_markets.Prelude.{
  ◌≡◌, ◌<◌, refl, subst, arith, true, List, [], ◌∷◌, none, some, ◌==◌, if◌then◌else◌,
}
use mathlib.Core.Option.{some-injective}
use bell_markets.Prelude.Result.{ok}
use bell_markets.Grid.{Ticker, mag7}
use bell_markets.Grid.Phases.{PriceRead}
use bell_markets.Morning.{MorningJobDeps, MorningTurn, close_of, run_morning_create_markets}
use bell_markets.Morning.Created.{AreMorningTurns, run_morning_create_markets-returns}

abbrev test_morning : MorningJobDeps
test_morning = record {
  unit = 100;
  program_id_set = true;
  expiry_unix = 1700000000;
  clients = ok tt;
  phoenix_market = λ ticker. some (1 ∷ []);
  pyth_price_account = λ ticker. some (2 ∷ []);
  hermes_feed_id = λ ticker. some (3 ∷ []);
  get_previous_close = λ ticker feed. some (record { price = 43700; expo = 5 });
  send = λ input. if input.strike_usd == 440 then none else some (4 ∷ []);
}

positive_closes :
    (ticker : Ticker) (read : PriceRead)
    → close_of test_morning ticker (test_morning.hermes_feed_id ticker) ≡ some read
    → 0 < read.price
positive_closes ticker read e =
    subst (λ (r : PriceRead). 0 < r.price) (some-injective _ _ e) (omega arith)

run_morning_create_markets-returns_example :
    (turns : List MorningTurn) × (run_morning_create_markets test_morning ≡ ok turns)
    × AreMorningTurns test_morning mag7 turns
run_morning_create_markets-returns_example =
    run_morning_create_markets-returns test_morning refl refl (omega arith) positive_closes
