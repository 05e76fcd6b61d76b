-- ===== src/EthStatus/Tests.antt =====
-- The theorems on 1_eth_status.c at concrete inputs.
use yocto_meta_hsiao.Base.{
  ℕ, ◌<◌, ◌≡◌, ◌++◌, inr, true, List, [], ◌∷◌, some, none, pos, length, arith,
}
use yocto_meta_hsiao.Text.{codes}
use yocto_meta_hsiao.Text.Files.{File, contents, fgets}
use yocto_meta_hsiao.EthStatus.{read_first_line}
use yocto_meta_hsiao.EthStatus.FirstLine.{Trims, line_of, read_first_line-Trims}
use yocto_meta_hsiao.EthStatus.Report.{System, eth_status}
use yocto_meta_hsiao.EthStatus.Whole.{whole_reports, eth_status_whole}

-- The file of an interface that is up.
abbrev operstate : List ℕ
operstate = codes "up" ++ 13 ∷ 10 ∷ codes "down"

read_first_line-Trims_example :
    let (ret, text) = read_first_line 4 (contents operstate) in
    (ret ≡ pos 0) × Trims (line_of 3 operstate) text × (length text < 4)
read_first_line-Trims_example = read_first_line-Trims 3 operstate (omega arith) (omega arith)

-- The link of a driver.
abbrev link : List ℕ
link = codes "../../bus/platform/drivers/fec"

-- Each file holds the line.
abbrev lines : List ℕ → File
lines path = contents operstate

abbrev system : System
system = record {
  exists = λ path. true;
  if_nametoindex = λ name. 2;
  readlink = λ path. some link;
  if_flags = λ name. inr 0x1043;
  file = lines;
  ifaddrs = none;
  has_lower_up = true;
}

eth_status_whole_example :
    eth_status system (codes "eth_status" ∷ codes "eth1" ∷ [])
    ≡ (pos 0, whole_reports system (codes "eth1"))
unfolding fgets
eth_status_whole_example =
    eth_status_whole system (codes "eth_status") (codes "eth1")
      (record { link = omega arith; values = omega arith; counts = omega arith })
