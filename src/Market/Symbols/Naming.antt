-- ===== src/Market/Symbols/Naming.antt =====
-- Which exchange a symbol resolves to, and the names of a venue.
use claude_code_and_vive_cod.Prelude.{
  ◌≡◌, refl, sym, ap, ◌∙◌, ◌⊎◌, inl, inr, true, false, Option, some, none, arith,
}
use mathlib.Core.Path.{subst}
use claude_code_and_vive_cod.Text.{Text, codes, text_eq, text_mem, upper}
use claude_code_and_vive_cod.Market.Symbols.{
  clean, excd_of, or_nasd, is_crypto, is_kr, is_kr_text, kr_exchange, canonical_exchanges,
  exchange_of, resolve_exchange, is_supported_exchange, to_backend_symbol, if_given,
  broker_exchange, to_quote_excd, venue, strip, strip_left, strip_right,
}
use claude_code_and_vive_cod.Market.Symbols.Clean.{clean_idem}

or_nasd-excd_of :
    (s : Text)
    → (text_mem (or_nasd (excd_of s)) canonical_exchanges ≡ true)
      × (text_eq (or_nasd (excd_of s)) kr_exchange ≡ false)
unfolding excd_of text_mem text_eq
or_nasd-excd_of s = ground arith

-- What `exchange_of` has checked when it gives an exchange.
exchange_of-inv :
    (s : Text) {x : Text}
    → exchange_of s ≡ some x
    → (is_crypto s ≡ false)
      × (text_mem x canonical_exchanges ≡ true)
      × (text_eq x kr_exchange ≡ is_kr (some s))
unfolding exchange_of text_mem text_eq
exchange_of-inv s h = ground (arith, or_nasd-excd_of s)

-- An exchange that resolve_exchange gives is one that orders can be routed to, is given for no
-- crypto pair, and is the domestic one exactly for a domestic symbol.
pub resolve_exchange-IsSupported :
    (raw : Option Text) {x : Text}
    → resolve_exchange raw ≡ some x
    → (is_supported_exchange x ≡ true)
      × (is_crypto (clean raw) ≡ false)
      × (text_eq x kr_exchange ≡ is_kr raw)
unfolding resolve_exchange is_supported_exchange is_kr
resolve_exchange-IsSupported raw h =
    let f = exchange_of-inv (clean raw) h in (f.1, f.0, f.2 ∙ ap is_kr_text (clean_idem raw))

if_given-inv :
    (o : Option Text) (t : Text) {s : Text}
    → if_given o t ≡ some s
    → (x : Text) × (o ≡ some x) × (t ≡ s)
if_given-inv none t h = cc
if_given-inv (some x) t h = (x, refl, cc)

-- The symbol that orders are routed by resolves to the exchange that the raw symbol does, is its
-- own backend symbol, and passes the broker's test for domestic symbols exactly if that exchange
-- is the domestic one.
pub to_backend_symbol-routes :
    (raw : Option Text) {s : Text}
    → to_backend_symbol raw ≡ some s
    → (x : Text) × (resolve_exchange raw ≡ some x)
      × (resolve_exchange (some s) ≡ some x)
      × (to_backend_symbol (some s) ≡ some s)
      × (is_kr_text s ≡ text_eq x kr_exchange)
unfolding to_backend_symbol resolve_exchange is_kr
to_backend_symbol-routes raw {s} h =
    let (x, e, c) = if_given-inv (resolve_exchange raw) (clean raw) h in
    let same : clean (some s) ≡ s = rw (← c) (clean_idem raw) in
    let f = exchange_of-inv (clean raw) e in
    (
      x,
      e,
      rw (same, ← c) e,
      rw (same, ← c, e) refl,
      rw (← c) (ap is_kr_text (sym (clean_idem raw)) ∙ sym f.2),
    )

-- The code that quotes a venue leads back to it, and so does the venue's own code.
abbrev RoundTrips : Text → Type 0
RoundTrips v =
    (q : Text) × (to_quote_excd v ≡ some q)
    × (broker_exchange (some q) ≡ some v)
    × (broker_exchange (some v) ≡ some v)

venue-name :
    (t : Text) {v : Text}
    → venue t ≡ some v
    → (codes "NASD" ≡ v) ⊎ ((codes "NYSE" ≡ v) ⊎ (codes "AMEX" ≡ v))
unfolding text_mem text_eq
venue-name t h = ground arith

name-RoundTrips :
    {v : Text} → (codes "NASD" ≡ v) ⊎ ((codes "NYSE" ≡ v) ⊎ (codes "AMEX" ≡ v)) → RoundTrips v
unfolding to_quote_excd broker_exchange strip strip_left strip_right text_eq text_mem
name-RoundTrips (inl e) = subst RoundTrips e (codes "NAS", refl, refl, refl)
name-RoundTrips (inr (inl e)) = subst RoundTrips e (codes "NYS", refl, refl, refl)
name-RoundTrips (inr (inr e)) = subst RoundTrips e (codes "AMS", refl, refl, refl)

-- A venue that broker_exchange reads off a broker's code has a quote code, and broker_exchange
-- reads that code, and the venue's own code, as the same venue.
pub broker_exchange-RoundTrips :
    (raw : Option Text) {v : Text}
    → broker_exchange raw ≡ some v
    → (q : Text) × (to_quote_excd v ≡ some q)
      × (broker_exchange (some q) ≡ some v)
      × (broker_exchange (some v) ≡ some v)
unfolding broker_exchange
broker_exchange-RoundTrips none h = cc
broker_exchange-RoundTrips (some t) h = name-RoundTrips (venue-name (upper (strip t)) h)
