-- ===== src/Market/Tests.antt =====
-- The theorems of the symbol names at concrete symbols.
use claude_code_and_vive_cod.Prelude.{◌≡◌, refl, Option, some}
use claude_code_and_vive_cod.Text.{Text, codes}
use claude_code_and_vive_cod.Market.Symbols.{
  clean, is_crypto, is_kr, is_kr_text, resolve_exchange, to_backend_symbol, to_quote_excd,
  broker_exchange,
}
use claude_code_and_vive_cod.Text.{text_eq}
use claude_code_and_vive_cod.Market.Symbols.Naming.{broker_exchange-RoundTrips}

abbrev class_share : Option Text
class_share = some (codes " brk.b ")

abbrev etf : Option Text
etf = some (codes "069500")

class_share_exchange : resolve_exchange class_share ≡ some (codes "NYSE")
unfolding resolve_exchange claude_code_and_vive_cod.Market.Symbols.exchange_of clean
    claude_code_and_vive_cod.Market.Symbols.strip
    claude_code_and_vive_cod.Market.Symbols.strip_right
    claude_code_and_vive_cod.Market.Symbols.strip_left is_crypto
    claude_code_and_vive_cod.Market.Symbols.ends_with text_eq is_kr is_kr_text
    claude_code_and_vive_cod.Text.text_mem claude_code_and_vive_cod.Market.Symbols.core_of
    claude_code_and_vive_cod.Market.Symbols.excd_of
class_share_exchange = refl

etf_backend_symbol : to_backend_symbol etf ≡ some (codes "069500")
unfolding to_backend_symbol resolve_exchange claude_code_and_vive_cod.Market.Symbols.exchange_of
    clean claude_code_and_vive_cod.Market.Symbols.strip
    claude_code_and_vive_cod.Market.Symbols.strip_right
    claude_code_and_vive_cod.Market.Symbols.strip_left is_crypto
    claude_code_and_vive_cod.Market.Symbols.ends_with text_eq is_kr is_kr_text
    claude_code_and_vive_cod.Text.text_mem
etf_backend_symbol = refl

amex_venue : broker_exchange (some (codes " ams ")) ≡ some (codes "AMEX")
unfolding broker_exchange claude_code_and_vive_cod.Text.text_mem
    claude_code_and_vive_cod.Market.Symbols.strip
    claude_code_and_vive_cod.Market.Symbols.strip_right
    claude_code_and_vive_cod.Market.Symbols.strip_left
amex_venue = refl

broker_exchange-RoundTrips_example :
    (q : Text) × (to_quote_excd (codes "AMEX") ≡ some q)
    × (broker_exchange (some q) ≡ some (codes "AMEX"))
    × (broker_exchange (some (codes "AMEX")) ≡ some (codes "AMEX"))
broker_exchange-RoundTrips_example = broker_exchange-RoundTrips (some (codes " ams ")) amex_venue
