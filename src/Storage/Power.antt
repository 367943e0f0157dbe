-- ===== src/Storage/Power.antt =====
-- Wi-Fi updates over the slots, and then a loss of power.
use waveshare.Prelude.{◌≡◌, ◌≢◌, List}
use waveshare.Config.Transaction.{Call, Transaction}
use waveshare.Storage.Nvs.{Namespace, legacy_space, Nvs, Separate, Keyed, Commits}
use waveshare.Storage.Ports.{Surroundings, flash_after, flash_at}
use waveshare.Storage.Updates.{OthersKeep}
use waveshare.Storage.Settled.{Reliable, IsSettled}

module _ {S : Type 0} (nvs : Nvs S) (restart : S → S) (around : Surroundings S) (start : S)
    (separate : Separate nvs) (keyed : Keyed nvs) (commits : Commits nvs restart)
    (reliable : Reliable nvs) (others : OthersKeep nvs around)
    (others_later : (calls : List Call) (s : S) (n : Namespace)
      → n ≢ legacy_space
      → nvs.look (restart (around.others calls s)) n ≡ nvs.look (restart s) n) where
  abbrev flash : List Call → S
  flash calls = flash_after nvs around start calls

  abbrev at : List Call → S
  at calls = flash_at nvs around start calls

  abbrev Settled : S → Type 0
  Settled s = IsSettled nvs restart separate commits reliable s
