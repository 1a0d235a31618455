-- ===== src/Operator/Logging.antt =====
-- flags.go and logger.go: the log format, and the level of the logger. zapcore.Level is an int8; the
-- building of a logger from its configuration is a parameter.
use provider_exoscale.Prelude.{
  ℕ, zero, suc, ltb, String, Bool, ◌||◌, [], ◌∷◌, Result, ok, err, msg, wrap, map_err, ◌-◌, ◌%◌,
  ◌^◌, ◌==◌, if◌then◌else◌, ◌≡◌, ◌↔◌, ◌≤◌, ◌<◌, arith,
}
use provider_exoscale.Prelude.Int.{ℤ, pos, negsuc}
use provider_exoscale.Api.{CaseFold, equal_fold}

-- The action of newLogFormatFlag.
unfoldable pub check_log_format : String → Result (Unit {0})
check_log_format format =
    if format == "console" || format == "json"
    then ok tt
    else err (msg "unknown log format: %s" (format ∷ []))

unfoldable pub uses_production_logging_config : CaseFold → String → Bool
unfolding equal_fold
uses_production_logging_config u format = equal_fold u "JSON" format

-- The int8 with the given bits.
abbrev pub int8 : ℕ → ℤ
int8 bits = if ltb bits (2 ^ 7) then pos bits else negsuc (2 ^ 8 - 1 - bits)

-- zapcore.Level(verbosityLevel * -1): the low eight bits of the product.
unfoldable pub zap_level : ℤ → ℤ
zap_level (pos n) = int8 ((2 ^ 8 - n % 2 ^ 8) % 2 ^ 8)
zap_level (negsuc n) = int8 (suc n % 2 ^ 8)

-- zap.Config: whether it is the production configuration, and its level.
pub record ZapConfig : Type 0 where
  pub is_production : Bool
  pub level : ℤ

-- newZapLogger and setupLogging, over the values of the two flags.
unfoldable pub new_zap_logger : {L : Type 0} → (ZapConfig → Result L) → ℤ → Bool → Result L
unfolding zap_level
new_zap_logger build verbosity_level use_production_config =
    map_err (wrap "error configuring the logging stack: %w")
      (build (record { is_production = use_production_config; level = zap_level verbosity_level }))

unfoldable pub setup_logging :
    {L : Type 0} → CaseFold → (ZapConfig → Result L) → ℤ → String → Result L
unfolding new_zap_logger uses_production_logging_config
setup_logging u build log_level log_format =
    new_zap_logger build log_level (uses_production_logging_config u log_format)

abbrev pub negated : ℕ → ℤ
negated zero = pos 0
negated (suc n) = negsuc n

-- The level of the logger is the negated verbosity exactly up to a verbosity of 128; above, up to 255, it
-- is positive, so that more verbosity logs less.
pub zap_level_iff :
    (n : ℕ)
    → ((zap_level (pos n) ≡ negated n) ↔ (n ≤ 128))
      × (128 < n → n < 256 → zap_level (pos n) ≡ pos (256 - n))
unfolding zap_level
zap_level_iff zero = ((ground arith, ground arith), ground arith)
zap_level_iff (suc n) = ((ground arith, ground arith), ground arith)
