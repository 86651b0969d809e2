-- ===== src/Brokers/Validator/Soundness.antt =====
-- What a request that passes the validator is.
use claude_code_and_vive_cod.Prelude.{
  ◌≡◌, refl, ◌⊎◌, Bool, true, false, not, is_some, String, str_eq, arith,
}
use claude_code_and_vive_cod.Values.{PyFloat, nan, infinite, finite}
use claude_code_and_vive_cod.Brokers.Models.{BrokerCapabilities}
use claude_code_and_vive_cod.Brokers.Validator.{
  OrderRequest, ok, misrouted, check_market_routing, check_fractional, check_short, check_stop,
  market_flag, normalize_market_order, validate,
}

abbrev pub is_whole : PyFloat → Bool
is_whole nan = false
is_whole (infinite _) = false
is_whole (finite _ _ fraction) = not fraction

-- The request `out` that came of `req` is one that the broker can take.
pub record IsAccepted (enforcement : Bool) (caps : BrokerCapabilities) {P : Type 0}
    (req out : OrderRequest P) : Type 0 where
  pub unchanged : out ≡ record req { order_type = out.order_type }
  pub routed : enforcement ≡ true → misrouted enforcement caps req.market ≡ false
  pub whole : caps.supports_fractional ≡ false → is_whole req.qty ≡ true
  pub no_stop : str_eq out.order_type "stop" ≡ true → caps.supports_stop_order ≡ true
  pub market_taken : str_eq out.order_type "market" ≡ true → market_flag caps req.side ≡ true
  pub degraded :
      (out.order_type ≡ req.order_type)
      ⊎ ((str_eq req.order_type "market" ≡ true)
          × (market_flag caps req.side ≡ false)
          × (out.order_type ≡ "limit")
          × (is_some req.price ≡ true))

module _ (enforcement : Bool) (caps : BrokerCapabilities) {P : Type 0} (req out : OrderRequest P)
    (passed : validate enforcement caps req ≡ ok out) where
  accepted-routed : enforcement ≡ true → misrouted enforcement caps req.market ≡ false
  unfolding validate check_market_routing
  accepted-routed e = ground arith

  after_routing :
      (check_fractional caps req.qty ≡ ok tt)
      × (check_stop caps req.order_type ≡ ok tt)
      × (normalize_market_order caps req ≡ ok out)
  unfolding validate check_short
  after_routing = ground arith

whole_of_check :
    (caps : BrokerCapabilities) (q : PyFloat)
    → check_fractional caps q ≡ ok tt
    → caps.supports_fractional ≡ false
    → is_whole q ≡ true
unfolding check_fractional
whole_of_check caps nan h no_fractions = ground arith
whole_of_check caps (infinite _) h no_fractions = ground arith
whole_of_check caps (finite _ _ fraction) h no_fractions = ground arith

limit_texts : (t : String) → t ≡ "limit" → (str_eq t "market" ≡ false) × (str_eq t "stop" ≡ false)
limit_texts t e = rw e (refl, refl)

module _ (caps : BrokerCapabilities) {P : Type 0} (req out : OrderRequest P)
    (normal : normalize_market_order caps req ≡ ok out) where
  normal-unchanged : out ≡ record req { order_type = out.order_type }
  unfolding normalize_market_order
  normal-unchanged = ground arith

  normal-degraded :
      (out.order_type ≡ req.order_type)
      ⊎ ((str_eq req.order_type "market" ≡ true)
          × (market_flag caps req.side ≡ false)
          × (out.order_type ≡ "limit")
          × (is_some req.price ≡ true))
  unfolding normalize_market_order
  normal-degraded = ground arith

  normal-market : str_eq out.order_type "market" ≡ true → market_flag caps req.side ≡ true
  unfolding normalize_market_order
  normal-market h = ground (arith, limit_texts out.order_type)

  normal-stop :
      check_stop caps req.order_type ≡ ok tt
      → str_eq out.order_type "stop" ≡ true
      → caps.supports_stop_order ≡ true
  unfolding check_stop
  normal-stop c h = ground (arith, normal-degraded, limit_texts out.order_type)

  normal_again : normalize_market_order caps out ≡ ok out
  unfolding normalize_market_order
  normal_again = ground (arith, limit_texts out.order_type)

  stop_again : check_stop caps req.order_type ≡ ok tt → check_stop caps out.order_type ≡ ok tt
  unfolding check_stop
  stop_again h = ground (arith, normal-degraded, limit_texts out.order_type)

-- A request that the validator returns is one that the broker can take: only its order type may
-- have changed, and that only from an unsupported market order to a limit order at a given price;
-- it is not misrouted under enforcement, is whole unless fractions are supported, and is no
-- unsupported stop or market order.
pub validate-IsAccepted :
    (enforcement : Bool) (caps : BrokerCapabilities) {P : Type 0} (req out : OrderRequest P)
    → validate enforcement caps req ≡ ok out
    → IsAccepted enforcement caps req out
validate-IsAccepted enforcement caps req out passed =
    let (fractional, stop, normal) = after_routing enforcement caps req out passed in
    record {
      unchanged = normal-unchanged caps req out normal;
      routed = accepted-routed enforcement caps req out passed;
      whole = whole_of_check caps req.qty fractional;
      no_stop = normal-stop caps req out normal stop;
      market_taken = normal-market caps req out normal;
      degraded = normal-degraded caps req out normal;
    }

-- Validating an accepted request again accepts it as it is.
pub validate_idem :
    (enforcement : Bool) (caps : BrokerCapabilities) {P : Type 0} (req out : OrderRequest P)
    → validate enforcement caps req ≡ ok out
    → validate enforcement caps out ≡ ok out
unfolding validate check_short check_market_routing
validate_idem enforcement caps req out passed =
    let (fractional, stop, normal) = after_routing enforcement caps req out passed in
    ground (
      arith,
      fractional,
      stop_again caps req out normal stop,
      normal_again caps req out normal,
      normal-unchanged caps req out normal,
    )
