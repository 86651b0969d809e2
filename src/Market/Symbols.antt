-- ===== src/Market/Symbols.antt =====
-- backend/market/symbols.py, with the tables of backend/quant/data/universe.py. A raw symbol is
-- `none` if it is no text. Letters, digits and whitespace are those of ASCII.
pub mod Clean
pub mod Naming
use claude_code_and_vive_cod.Prelude.{
  ℕ, Bool, true, false, not, ◌&&◌, ◌||◌, Option, none, some, List, [], ◌∷◌, ◌++◌, leb, ◌==◌, length,
  if◌then◌else◌,
}
use claude_code_and_vive_cod.Text.{Text, codes, upper, text_eq, text_mem}

-- `KR_ETF`
abbrev pub kr_etf : List Text
kr_etf = codes "069500" ∷ codes "360750" ∷ codes "091160" ∷ []

-- `EXCD_MAP`: the keys of each of its two values.
abbrev nasd_symbols : List Text
nasd_symbols =
    codes "AAPL"
    ∷ codes "NVDA"
    ∷ codes "MSFT"
    ∷ codes "GOOGL"
    ∷ codes "AMZN"
    ∷ codes "META"
    ∷ codes "TSLA"
    ∷ codes "AVGO"
    ∷ codes "QQQ"
    ∷ codes "XLK"
    ∷ codes "XLRE"
    ∷ []

abbrev nyse_symbols : List Text
nyse_symbols =
    codes "SPY"
    ∷ codes "XLF"
    ∷ codes "XLE"
    ∷ codes "XLV"
    ∷ codes "XLI"
    ∷ codes "XLY"
    ∷ codes "XLP"
    ∷ codes "XLU"
    ∷ codes "JPM"
    ∷ codes "V"
    ∷ codes "BRK.B"
    ∷ codes "XOM"
    ∷ codes "WMT"
    ∷ []

unfoldable pub excd_of : Text → Option Text
excd_of symbol =
    if text_mem symbol nyse_symbols
    then some (codes "NYSE")
    else if text_mem symbol nasd_symbols
    then some (codes "NASD")
    else none

abbrev pub canonical_exchanges : List Text
canonical_exchanges = codes "KRX" ∷ codes "NASD" ∷ codes "NYSE" ∷ []

abbrev pub kr_exchange : Text
kr_exchange = codes "KRX"

-- A space, or one of the controls that `str.strip` takes off.
abbrev pub is_space : ℕ → Bool
is_space c = c == 32 || (leb 9 c && leb c 13) || (leb 28 c && leb c 31)

abbrev pub is_digit : ℕ → Bool
is_digit c = leb 48 c && leb c 57

abbrev pub is_letter : ℕ → Bool
is_letter c = (leb 65 c && leb c 90) || (leb 97 c && leb c 122)

unfoldable pub strip_left : Text → Text
strip_left [] = []
strip_left (c ∷ cs) = let rest = strip_left cs in if is_space c then rest else c ∷ cs

-- A character is kept if it is no space, or if anything after it is kept.
abbrev pub keep_before : ℕ → Text → Text
keep_before c [] = if is_space c then [] else c ∷ []
keep_before c (d ∷ ds) = c ∷ d ∷ ds

unfoldable pub strip_right : Text → Text
strip_right [] = []
strip_right (c ∷ cs) = keep_before c (strip_right cs)

unfoldable pub strip : Text → Text
strip t = strip_right (strip_left t)

-- `_clean`
unfoldable pub clean : Option Text → Text
clean none = []
clean (some t) = upper (strip t)

abbrev all_of : (ℕ → Bool) → Text → Bool
all_of p [] = true
all_of p (c ∷ cs) = p c && all_of p cs

abbrev pub is_empty : Text → Bool
is_empty [] = true
is_empty (c ∷ cs) = false

-- `symbol in KR_ETF or (len(symbol) == 6 and symbol.isdigit())`
unfoldable pub is_kr_text : Text → Bool
is_kr_text symbol = text_mem symbol kr_etf || (length symbol == 6 && all_of is_digit symbol)

unfoldable pub is_kr : Option Text → Bool
is_kr raw = is_kr_text (clean raw)

abbrev has_slash : Text → Bool
has_slash [] = false
has_slash (c ∷ cs) = c == 47 || has_slash cs

-- `str.endswith`
unfoldable pub ends_with : Text → Text → Bool
ends_with suffix [] = text_eq [] suffix
ends_with suffix (c ∷ cs) = text_eq (c ∷ cs) suffix || ends_with suffix cs

unfoldable pub is_crypto : Text → Bool
is_crypto symbol =
    has_slash symbol
    || (ends_with (codes "USDT") symbol
        || (ends_with (codes "USDC") symbol || ends_with (codes "BUSD") symbol))

-- `symbol.replace(".", "").replace("-", "")`
unfoldable pub core_of : Text → Text
core_of [] = []
core_of (c ∷ cs) = let rest = core_of cs in if c == 46 || c == 45 then rest else c ∷ rest

abbrev or_nasd : Option Text → Text
or_nasd none = codes "NASD"
or_nasd (some e) = e

-- `resolve_exchange` of a symbol that was cleaned.
unfoldable pub exchange_of : Text → Option Text
exchange_of symbol =
    if is_empty symbol || is_crypto symbol
    then none
    else if is_kr (some symbol)
    then some kr_exchange
    else if is_empty (core_of symbol) || not (all_of is_letter (core_of symbol))
    then none
    else some (or_nasd (excd_of symbol))

unfoldable pub resolve_exchange : Option Text → Option Text
resolve_exchange raw = exchange_of (clean raw)

unfoldable pub is_supported_exchange : Text → Bool
is_supported_exchange exchange = text_mem exchange canonical_exchanges

abbrev is_given : Option Text → Bool
is_given none = false
is_given (some e) = true

unfoldable pub is_mapped : Option Text → Bool
is_mapped raw =
    let symbol = clean raw in
    not (is_empty symbol) && (is_kr (some symbol) || is_given (excd_of symbol))

abbrev pub venue : Text → Option Text
venue code =
    if text_mem code (codes "NASD" ∷ codes "NAS" ∷ [])
    then some (codes "NASD")
    else if text_mem code (codes "NYSE" ∷ codes "NYS" ∷ [])
    then some (codes "NYSE")
    else if text_mem code (codes "AMEX" ∷ codes "AMS" ∷ [])
    then some (codes "AMEX")
    else none

unfoldable pub broker_exchange : Option Text → Option Text
broker_exchange none = none
broker_exchange (some code) = venue (upper (strip code))

unfoldable pub to_quote_excd : Text → Option Text
to_quote_excd exchange =
    if text_eq exchange (codes "NASD")
    then some (codes "NAS")
    else if text_eq exchange (codes "NYSE")
    then some (codes "NYS")
    else if text_eq exchange (codes "AMEX")
    then some (codes "AMS")
    else none

abbrev dashed : Text → Text
dashed [] = []
dashed (c ∷ cs) = (if c == 46 then 45 else c) ∷ dashed cs

-- The spellings of a cleaned symbol on an exchange.
unfoldable pub spellings : Option Text → Text → List Text
spellings none symbol = []
spellings (some exchange) symbol =
    if text_eq exchange kr_exchange
    then (symbol ++ codes ".KS") ∷ (symbol ++ codes ".KQ") ∷ []
    else dashed symbol ∷ []

unfoldable pub provider_symbol_candidates : Option Text → List Text
provider_symbol_candidates raw = spellings (resolve_exchange raw) (clean raw)

abbrev if_given : Option Text → Text → Option Text
if_given none symbol = none
if_given (some e) symbol = some symbol

unfoldable pub to_backend_symbol : Option Text → Option Text
to_backend_symbol raw = if_given (resolve_exchange raw) (clean raw)
