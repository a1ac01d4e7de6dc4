-- ===== src/Tests/Epochs.antt =====
-- The flush between two epochs.
use congenial_octo_telegram.Base.{[], ◌∷◌, update}
use congenial_octo_telegram.World.{World}
use congenial_octo_telegram.Tests.Scene.{event, shared, world}

-- Object 1 has sent an event into the next epoch.
abbrev at_end : World
at_end = record world {
  shared = record shared {
    speculation_queue = update shared.speculation_queue 1 (event 100 2 13 3 ∷ []);
  };
}
