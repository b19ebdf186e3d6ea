-- ===== src/Stress/Setup/Laws.antt =====
-- The set-up and the clean-up together.
use concurrencylab.Channel.{Channel}
use concurrencylab.Stress.Setup.{Stress}
