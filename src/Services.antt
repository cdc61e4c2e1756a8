-- ===== src/Services.antt =====
-- The services that `adbd` offers (src/services).
pub mod ShellV2
pub mod Shell
pub mod Sync
pub mod Props
pub mod Content
use rsadb.Base.{Bytes, ascii, ◌++◌, [], ◌∷◌}
use rsadb.Error.{Result, ok, err}
use rsadb.Channel.{Channel, ChannelReader, drain}

pub data RebootTarget : Type 0 where
  system bootloader recovery sideload fastboot : RebootTarget

unfoldable pub as_str : RebootTarget → Bytes
as_str system = []
as_str bootloader = ascii "bootloader"
as_str recovery = ascii "recovery"
as_str sideload = ascii "sideload"
as_str fastboot = ascii "fastboot"

drained : Result Bytes × ChannelReader → Result (Unit {0})
drained (ok out, r) = ok tt
drained (err e, r) = err e

rebooting : Result Channel → Result (Unit {0})
unfolding drained
rebooting (ok channel) = drained (drain channel)
rebooting (err e) = err e

-- `reboot`
unfoldable pub reboot_service : (Bytes → Result Channel) → RebootTarget → Result (Unit {0})
unfolding rebooting
reboot_service connect target = rebooting (connect (ascii "reboot:" ++ as_str target))
