-- ===== src/Shell/Tests.antt =====
-- Runs of the functions that use the shell, on a system whose state counts the commands that were run.
use cvos.Prelude.{ℕ, ◌+◌, ◌≤◌, ◌<◌, ◌≡◌, refl, arith, List, [], none, some, true, false}
use cvos.Prelude.{pos, neg, length, codes, strlen}
use cvos.Files.{Calls, os_system}
use cvos.Shell.{string_in, read_back, does_exist, net_is_mounted, rec_create_dir, net_mount_nas}
use cvos.Shell.{fw_net_update, file_name, tmp_dir, run, seek_back, strstr, behind}
use cvos.Shell.Count.{Leftmost, join, does_exist_lem}
use cvos.Shell.Mount.{mount_text, net_mount_nas_lem}

-- no directory is there, and each file that is read holds `abcab`
abbrev shell : Calls
shell = record {
  State = ℕ;
  exists = λ name k. false;
  mkfifo = λ name k. (pos 0, k);
  open_file = λ name mode k. (pos 3, k);
  close = λ fd k. (pos 0, k);
  read = λ fd n k. (pos 5, codes "abcab", k);
  write = λ fd p k. (pos 0, k);
  fstat = λ fd k. (pos 0, 0);
  statfs = λ name k. none;
  kill = λ pid sure k. (pos 0, k);
  wait = λ pid now k. (pos 0, k);
  system = λ cmd k. (pos 0, true, 0, k + 1);
}

run-net_is_mounted : net_is_mounted shell (some (codes "bca")) 0 ≡ some (pos 1, 1)
unfolding net_is_mounted os_system read_back seek_back string_in strlen strstr behind
run-net_is_mounted = refl

run-rec_create_dir :
    rec_create_dir shell (codes "20200131") (some (codes "/a/")) true 0
    ≡ some (pos 0, some (codes "/a/20200131"), 1)
unfolding rec_create_dir os_system
run-rec_create_dir = refl

-- An address without a `/` is a fault, and one whose file is not there an error.
run-fw_net_update_fault : fw_net_update shell 1 (codes "fw.tar") (pos 0) (codes "wget") 0 ≡ none
unfolding fw_net_update file_name tmp_dir run
run-fw_net_update_fault = refl

run-fw_net_update :
    fw_net_update shell 1 (codes "h/fw.tar") (pos 0) (codes "wget") 0 ≡ some (neg 2, 1)
unfolding fw_net_update file_name tmp_dir run
run-fw_net_update = refl

read_abcab : read_back shell (codes "/tmp/.tmp") 1 ≡ (some (codes "abcab"), 1)
unfolding read_back
read_abcab = refl

text_abcab : string_in (codes "abcab") ≡ some (codes "abcab")
unfolding string_in strlen
text_abcab = refl

does_exist_lem_example :
    (1 ≤ 2
      → (pieces : List (List ℕ)) × (last : List ℕ) × (does_exist shell 6 (codes "ps") (codes "ab") 0
          ≡ some (length pieces, 1))
        × (codes "abcab" ≡ join (codes "ab") last pieces)
        × Leftmost (codes "ab") last pieces)
    × (codes "ab" ≡ [] → (fuel : ℕ) → does_exist shell fuel (codes "ps") (codes "ab") 0 ≡ none)
does_exist_lem_example =
    does_exist_lem shell (codes "ps") (codes "ab") 0 1 (codes "abcab") (codes "abcab") (omega arith)
      read_abcab text_abcab

net_mount_nas_lem_example :
    (length (mount_text (codes "u") (codes "p") (codes "h") (codes "s")) < 256
      → net_mount_nas shell
          (some (codes "u"))
          (some (codes "p"))
          (some (codes "h"))
          (some (codes "s"))
          0
        ≡ some (pos 0, 1))
    × (256 ≤ length (mount_text (codes "u") (codes "p") (codes "h") (codes "s"))
        → net_mount_nas shell
            (some (codes "u"))
            (some (codes "p"))
            (some (codes "h"))
            (some (codes "s"))
            0
          ≡ none)
net_mount_nas_lem_example =
    net_mount_nas_lem shell (codes "u") (codes "p") (codes "h") (codes "s") 0
