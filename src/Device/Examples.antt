-- ===== src/Device/Examples.antt =====
-- The theorem on the opening of a drive at a concrete input.
use libaacs.Common.{ℕ, none, some, List, [], ◌∷◌, ◌==◌, length}
use libaacs.Common.Partial.{Ends}
use libaacs.Path.{not_link}
use libaacs.Device.{System, device_open}
use libaacs.Device.Opened.{LeavesDevice, device_open-LeavesDevice}

-- A disc that is mounted at "/d": the directory opens, and is no block device.
abbrev mounted_disc : System
mounted_disc = record {
  links = record { getcwd = none; readlink = λ p. not_link };
  open_ro = λ p. some (length p);
  is_block = λ fd. fd == 3;
  mounts = some ((b'/' ∷ b'd' ∷ [], b'/' ∷ b's' ∷ b'r' ∷ []) ∷ []);
}

abbrev disc_path : List ℕ
disc_path = b'/' ∷ b'd' ∷ b'/' ∷ []

device_open-LeavesDevice_example :
    Ends (LeavesDevice mounted_disc disc_path) (device_open mounted_disc disc_path)
device_open-LeavesDevice_example = device_open-LeavesDevice mounted_disc disc_path
