-- ===== src/Grid/Sent.antt =====
-- What an update that was sent puts on chain.
use bell_markets.Prelude.{
  ℕ, suc, ◌-◌, ◌*◌, ◌^◌, ◌≤◌, ◌<◌, ◌≡◌, refl, sym, ap, ◌∙◌, arith, not, List, [], ◌∷◌, ◌++◌, map,
  length, replicate, take, drop, length-append, length-replicate, ltb, ◌==◌,
}
use bell_markets.Prelude.Result.{
  Result, ok, throw, throw_if, map_result, >>=-eq-ok, throw_if-ok, ok_injective,
}
use bell_markets.Bytes.{Bytes}
use bell_markets.Grid.{round_ratio}
use bell_markets.Grid.Update.{
  UpdateTickerConfigInput, UpdateError, idl_missing, no_strikes, too_many_strikes, invalid_strike,
  sent_as, UpdateTickerConfigCall, BellMarketsAnchorClient, max_allowed_strikes,
  scale_strike_to_i64, config_pda, ticker_config_pda, pad_strikes, update_ticker_config, caught,
  default_update_ticker_config_tx,
}

-- Whole dollars are scaled exactly.
pub round_ratio-one : (n : ℕ) → round_ratio n 1 ≡ n
unfolding round_ratio
round_ratio-one n = omega arith

scale-whole :
    (strike expo : ℕ) {scaled : ℕ}
    → scale_strike_to_i64 strike 1 expo ≡ ok scaled
    → (0 < strike) × (strike * 10 ^ expo ≡ scaled)
unfolding scale_strike_to_i64
scale-whole strike expo e =
    let (u, above, returns) = >>=-eq-ok (throw_if (strike == 0) invalid_strike) _ e in
    let nonzero = throw_if-ok _ above in
    (ground arith, sym (round_ratio-one (strike * 10 ^ expo)) ∙ ok_injective _ returns refl)

scale-strikes :
    (strikes : List ℕ) (expo : ℕ) {scaled : List ℕ}
    → map_result (λ s. scale_strike_to_i64 s 1 expo) strikes ≡ ok scaled
    → map (λ s. s * 10 ^ expo) strikes ≡ scaled
unfolding map_result
scale-strikes [] expo e = ok_injective _ e refl
scale-strikes (s ∷ strikes) expo e =
    let (first, is_first, rest) = >>=-eq-ok (scale_strike_to_i64 s 1 expo) _ e in
    let (later, are_later, returns) =
      >>=-eq-ok (map_result (λ s. scale_strike_to_i64 s 1 expo) strikes) _ rest in
    let (above, exact) = scale-whole s expo is_first in
    rw (exact, scale-strikes strikes expo are_later) (ok_injective _ returns refl)

length-map : (f : ℕ → ℕ) (xs : List ℕ) → length (map f xs) ≡ length xs
length-map f [] = refl
length-map f (x ∷ xs) = ap suc (length-map f xs)

take-append : (xs ys : List ℕ) → take (length xs) (xs ++ ys) ≡ xs
take-append [] ys = refl
take-append (x ∷ xs) ys = ap (◌∷◌ x) (take-append xs ys)

drop-append : (xs ys : List ℕ) → drop (length xs) (xs ++ ys) ≡ ys
drop-append [] ys = refl
drop-append (x ∷ xs) ys = drop-append xs ys

-- The call that stands behind a signature.
pub record IsCall (unit : ℕ) (client : BellMarketsAnchorClient) (input : UpdateTickerConfigInput)
    (call : UpdateTickerConfigCall) : Type 0 where
  pub some_strikes : 0 < length input.allowed_strikes
  pub few_strikes : length input.allowed_strikes ≤ 16
  pub strike_count : call.strike_count ≡ length input.allowed_strikes
  pub slots : length call.allowed_strikes ≡ 16
  pub scaled :
      take call.strike_count call.allowed_strikes
      ≡ map (λ s. s * 10 ^ input.expo) input.allowed_strikes
  pub padded :
      drop call.strike_count call.allowed_strikes ≡ replicate (16 - length input.allowed_strikes) 0
  pub cap_center : call.cap_center ≡ round_ratio (input.cap_center * 10 ^ input.expo) unit
  pub tick_size : call.strike_tick_size ≡ input.tick_size_usd * 10 ^ input.expo
  pub at_ticker : call.ticker_config ≡ ticker_config_pda client input.pyth_price_account

caught-sent :
    (m : Result UpdateError Bytes) {tx_sig : Bytes} → caught m ≡ sent_as tx_sig → m ≡ ok tx_sig
caught-sent (ok b) e = ground arith
caught-sent (throw err) e = cc

call_of :
    (unit : ℕ) (client : BellMarketsAnchorClient) (input : UpdateTickerConfigInput)
    (cap_center tick_size : ℕ) (strikes : List ℕ)
    → UpdateTickerConfigCall
call_of unit client input cap_center tick_size strikes = record {
  cap_center = cap_center;
  allowed_strikes = pad_strikes strikes;
  strike_count = length strikes;
  max_user_strike_deviation_bps = input.deviation_cap_bps;
  strike_tick_size = tick_size;
  threshold_bps = input.threshold_bps;
  admin = client.admin;
  config = config_pda client;
  pyth_feed = input.pyth_price_account;
  ticker_config = ticker_config_pda client input.pyth_price_account;
  system_program = client.system_program;
}

call_of-IsCall :
    (unit : ℕ) (client : BellMarketsAnchorClient) (input : UpdateTickerConfigInput)
    (cap_center tick_size : ℕ) (strikes : List ℕ)
    → map (λ s. s * 10 ^ input.expo) input.allowed_strikes ≡ strikes
    → 0 < length strikes
    → length strikes ≤ 16
    → round_ratio (input.cap_center * 10 ^ input.expo) unit ≡ cap_center
    → input.tick_size_usd * 10 ^ input.expo ≡ tick_size
    → IsCall unit client input (call_of unit client input cap_center tick_size strikes)
unfolding call_of
call_of-IsCall unit client input cap_center tick_size strikes scaled some_strikes few cap tick =
    let count : length strikes ≡ length input.allowed_strikes =
      sym (ap length scaled) ∙ length-map (λ s. s * 10 ^ input.expo) input.allowed_strikes in
    let zeros : List ℕ = replicate (16 - length strikes) 0 in
    record {
      some_strikes = omega arith;
      few_strikes = omega arith;
      strike_count = count;
      slots =
          omega
            (arith, length-append strikes zeros, length-replicate {A = ℕ} (16 - length strikes) 0);
      scaled = take-append strikes zeros ∙ sym scaled;
      padded = drop-append strikes zeros ∙ ap (λ n. replicate (16 - n) 0) count;
      cap_center = sym cap;
      tick_size = sym tick;
      at_ticker = refl;
    }

scale-cap_center :
    (n unit expo : ℕ) {scaled : ℕ}
    → scale_strike_to_i64 n unit expo ≡ ok scaled
    → round_ratio (n * 10 ^ expo) unit ≡ scaled
unfolding scale_strike_to_i64
scale-cap_center n unit expo e =
    let (u, above, returns) = >>=-eq-ok (throw_if (n == 0) invalid_strike) _ e in
    ok_injective _ returns refl

-- When an update returns a signature, it is the one of a call with between one and sixteen strikes,
-- whose count is that of the strikes given; its sixteen slots hold each of them times the power of
-- ten of the feed, in order, and zeros behind them; the centre is rounded to that scale and the
-- account is the one derived from the feed.
pub default_update_ticker_config_tx-IsCall :
    (unit : ℕ) (client : BellMarketsAnchorClient) (input : UpdateTickerConfigInput) (tx_sig : Bytes)
    → default_update_ticker_config_tx unit client input ≡ sent_as tx_sig
    → (call : UpdateTickerConfigCall) × (client.rpc call ≡ ok tx_sig)
      × IsCall unit client input call
unfolding default_update_ticker_config_tx update_ticker_config call_of
default_update_ticker_config_tx-IsCall unit client input tx_sig e =
    let (has_method, e1, r1) =
      >>=-eq-ok client.program _ (caught-sent (update_ticker_config unit client input) e) in
    let (u1, e2, r2) = >>=-eq-ok (throw_if (not has_method) idl_missing) _ r1 in
    let (cap, e3, r3) = >>=-eq-ok (scale_strike_to_i64 input.cap_center unit input.expo) _ r2 in
    let (strikes, e4, r4) =
      >>=-eq-ok (map_result (λ s. scale_strike_to_i64 s 1 input.expo) input.allowed_strikes) _ r3 in
    let (u2, e5, r5) = >>=-eq-ok (throw_if (length strikes == 0) no_strikes) _ r4 in
    let (u3, e6, r6) =
      >>=-eq-ok
        (throw_if (ltb max_allowed_strikes (length strikes)) (too_many_strikes (length strikes))) _
        r5 in
    let (tick, e7, r7) = >>=-eq-ok (scale_strike_to_i64 input.tick_size_usd 1 input.expo) _ r6 in
    let some_strikes = throw_if-ok _ e5 in
    let few = throw_if-ok _ e6 in
    (
      call_of unit client input cap tick strikes,
      r7,
      call_of-IsCall unit client input cap tick strikes
          (scale-strikes input.allowed_strikes input.expo e4) (ground arith) (ground arith)
          (scale-cap_center input.cap_center unit input.expo e3)
          ((scale-whole input.tick_size_usd input.expo e7).1),
    )
